-- ===== src/Codec.antt =====
-- python/python/glide/protobuf_codec.py: messages on the socket, each behind a varint of its length.
-- A bytes object is a list of numbers. Protobuf itself is a parameter: `parse` stands for
-- `ParseFromString` (`none` is its DecodeError), `serialize` for `SerializeToString`.
pub mod Encode
pub mod Decode
pub mod RoundTrip
pub mod Delimited
use glide_for_redis.Common.{
  ℕ, zero, suc, ◌+◌, ◌-◌, ◌*◌, ◌/◌, ◌^◌, bit_and, bit_or, Option, none, some, List, [], ◌∷◌, ◌++◌,
  get_elem?, length, take, drop, ltb, leb, ◌==◌, if◌then◌else◌,
}

pub data CodecException : Type 0 where
  index_error partial_message decode_error : CodecException

-- `stuck` is no Python value: the loop's bound on rounds ran out.
pub data Decoded {ℓ} (A : Type ℓ) : Type ℓ where
  ok : A → Decoded A
  raised : CodecException → Decoded A
  stuck : Decoded A

-- `decode_varint`: one round reads one byte. The shift grows by 7 from 0 and ends the loop at 64,
-- so that ten rounds are enough.
pub decode_loop : ℕ → ℕ → List ℕ → ℕ → ℕ → ℕ → Decoded (ℕ × ℕ)
decode_loop zero mask buffer pos result shift = stuck
decode_loop (suc rounds) mask buffer pos result shift = elim (get_elem? buffer pos) [
  | none ↦ raised index_error
  | some b ↦
      let result' = bit_or result (bit_and b 0x7f * 2 ^ shift) in
      let rest = decode_loop rounds mask buffer (pos + 1) result' (shift + 7) in
      if bit_and b 0x80 == 0
      then ok (bit_and result' mask, pos + 1)
      else if leb 64 (shift + 7)
      then raised decode_error
      else rest
]

pub varint_decoder : ℕ → List ℕ → ℕ → Decoded (ℕ × ℕ)
unfolding decode_loop
varint_decoder mask buffer pos = decode_loop 10 mask buffer pos 0 0

unfoldable pub decode_varint_32 : List ℕ → ℕ → Decoded (ℕ × ℕ)
unfolding varint_decoder
decode_varint_32 buffer pos = varint_decoder (2 ^ 32 - 1) buffer pos

-- The loop of `encode_varint`, with the list of pieces that it has written. Each round takes
-- `value` to `value / 128`, so that more rounds than `value` are enough.
pub encode_loop : ℕ → List ℕ → ℕ → ℕ → List ℕ
encode_loop zero pieces bits value = pieces
encode_loop (suc rounds) pieces bits value =
    let rest =
      encode_loop rounds (pieces ++ bit_or 0x80 bits ∷ []) (bit_and value 0x7f) (value / 2 ^ 7) in
    if value == 0 then pieces ++ bits ∷ [] else rest

pub varint_encoder : List ℕ → ℕ → List ℕ
unfolding encode_loop
varint_encoder pieces value = encode_loop (value + 1) pieces (bit_and value 0x7f) (value / 2 ^ 7)

unfoldable pub varint_bytes : ℕ → List ℕ
unfolding varint_encoder
varint_bytes value = varint_encoder [] value

module _ {M : Type 0} (parse : List ℕ → Option M) where
  -- `message.ParseFromString(msg_buf)`, and the offset behind it.
  pub parse_message : List ℕ → ℕ → Decoded (M × ℕ)
  parse_message msg_buf offset = elim (parse msg_buf) [
    | none ↦ raised decode_error
    | some message ↦ ok (message, offset)
  ]

  unfoldable pub decode_delimited : List ℕ → ℕ → Decoded (M × ℕ)
  unfolding parse_message
  decode_delimited read_bytes offset = elim (decode_varint_32 read_bytes offset) [
    | ok (msg_len, new_pos) ↦
        if ltb (length read_bytes) (new_pos + msg_len)
        then raised partial_message
        else parse_message (take msg_len (drop new_pos read_bytes)) (new_pos + msg_len)
    | raised index_error ↦ raised partial_message
    | raised partial_message ↦ raised partial_message
    | raised decode_error ↦ raised decode_error
    | stuck ↦ stuck
  ]

unfoldable pub encode_delimited : {M : Type 0} → (M → List ℕ) → List ℕ → M → List ℕ
unfolding varint_bytes
encode_delimited serialize b_arr message =
    let bytes_request = serialize message in
    (b_arr ++ varint_bytes (length bytes_request)) ++ bytes_request
