-- ===== src/Codec/Decode.antt =====
-- `decode_varint` on any buffer: where it stands in the buffer and what stands behind it.
use glide_for_redis.Common.{
  ℕ, zero, suc, ◌+◌, ◌-◌, ◌*◌, ◌^◌, ◌≤◌, ◌<◌, ◌≡◌, ◌≢◌, refl, bit_and, bit_or, List, ◌++◌,
  get_elem?, length, drop, get_elem?-drop, get_elem?-lt, get_elem?-append, Option-cases, inl, inr,
  arith,
}
use glide_for_redis.Common.Bits.{bit_and-le_right}
use glide_for_redis.Codec.{
  Decoded, ok, raised, stuck, index_error, partial_message, decode_loop, decode_varint_32,
}

-- The same answer, its position counted from `p` places further back.
abbrev pub advance : ℕ → Decoded (ℕ × ℕ) → Decoded (ℕ × ℕ)
advance p (ok (v, pos)) = ok (v, p + pos)
advance p (raised e) = raised e
advance p stuck = stuck

-- Only the bytes from the position on matter.
pub decode_loop-drop :
    (rounds mask : ℕ) (buffer : List ℕ) (p q result shift : ℕ)
    → decode_loop rounds mask buffer (p + q) result shift
      ≡ advance p (decode_loop rounds mask (drop p buffer) q result shift)
unfolding decode_loop
decode_loop-drop zero mask buffer p q result shift = refl
decode_loop-drop (suc rounds) mask buffer p q result shift =
    elim (Option-cases (get_elem? buffer (p + q))) [
      | inl e ↦ ground (arith, get_elem?-drop p q buffer)
      | inr (b, e) ↦
          let result' : ℕ = bit_or result (bit_and b 0x7f * 2 ^ shift) in
          let regroup : p + (q + 1) ≡ p + q + 1 = omega arith in
          let later = decode_loop-drop rounds mask buffer p (q + 1) result' (shift + 7) in
          ground (arith, get_elem?-drop p q buffer, regroup, rw regroup at later)
    ]

-- A decoded value is at most the mask, and its last byte lies in the buffer.
decode_loop_bounds :
    (rounds mask : ℕ) (buffer : List ℕ) (pos result shift v next : ℕ)
    → decode_loop rounds mask buffer pos result shift ≡ ok (v, next)
    → (v ≤ mask) × (pos < next) × (next ≤ pos + rounds) × (next ≤ length buffer)
unfolding decode_loop
decode_loop_bounds zero mask buffer pos result shift v next h = cc
decode_loop_bounds (suc rounds) mask buffer pos result shift v next h =
    elim (Option-cases (get_elem? buffer pos)) [
      | inl e ↦ ground arith
      | inr (b, e) ↦
          let result' : ℕ = bit_or result (bit_and b 0x7f * 2 ^ shift) in
          ground (
            arith,
            e,
            get_elem?-lt buffer pos b e,
            bit_and-le_right result' mask,
            decode_loop_bounds rounds mask buffer (pos + 1) result' (shift + 7) v next,
          )
    ]

-- More bytes behind the buffer change no answer but the missing byte.
decode_loop-append :
    (rounds mask : ℕ) (buffer more : List ℕ) (pos result shift : ℕ)
    → decode_loop rounds mask buffer pos result shift ≢ raised index_error
    → decode_loop rounds mask (buffer ++ more) pos result shift
      ≡ decode_loop rounds mask buffer pos result shift
unfolding decode_loop
decode_loop-append zero mask buffer more pos result shift h = refl
decode_loop-append (suc rounds) mask buffer more pos result shift h =
    elim (Option-cases (get_elem? buffer pos)) [
      | inl e ↦ absurd (h (rw (e, decode_loop)))
      | inr (b, e) ↦
          let result' : ℕ = bit_or result (bit_and b 0x7f * 2 ^ shift) in
          ground (
            arith,
            e,
            get_elem?-append buffer more pos b e,
            decode_loop-append rounds mask buffer more (pos + 1) result' (shift + 7),
          )
    ]

-- Ten rounds are enough: the shift reaches 64 before they run out.
decode_loop-ne-stuck :
    (rounds mask : ℕ) (buffer : List ℕ) (pos result shift : ℕ)
    → 64 ≤ shift + 7 * rounds
    → shift < 64
    → decode_loop rounds mask buffer pos result shift ≢ stuck
unfolding decode_loop
decode_loop-ne-stuck zero mask buffer pos result shift h k = absurd (omega arith)
decode_loop-ne-stuck (suc rounds) mask buffer pos result shift h k =
    elim (Option-cases (get_elem? buffer pos)) [
      | inl e ↦ ground arith
      | inr (b, e) ↦
          let result' : ℕ = bit_or result (bit_and b 0x7f * 2 ^ shift) in
          ground (arith, decode_loop-ne-stuck rounds mask buffer (pos + 1) result' (shift + 7))
    ]

decode_loop-ne-partial :
    (rounds mask : ℕ) (buffer : List ℕ) (pos result shift : ℕ)
    → decode_loop rounds mask buffer pos result shift ≢ raised partial_message
unfolding decode_loop
decode_loop-ne-partial zero mask buffer pos result shift h = cc
decode_loop-ne-partial (suc rounds) mask buffer pos result shift h =
    elim (Option-cases (get_elem? buffer pos)) [
      | inl e ↦ ground arith
      | inr (b, e) ↦
          let result' : ℕ = bit_or result (bit_and b 0x7f * 2 ^ shift) in
          ground (arith, decode_loop-ne-partial rounds mask buffer (pos + 1) result' (shift + 7))
    ]

pub varint_32-drop :
    (buffer : List ℕ) (p : ℕ)
    → decode_varint_32 buffer p ≡ advance p (decode_varint_32 (drop p buffer) 0)
unfolding decode_varint_32
varint_32-drop buffer p =
    let regroup : p + 0 ≡ p = omega arith in
    rw regroup at (decode_loop-drop 10 (2 ^ 32 - 1) buffer p 0 0 0)

-- A varint that is decoded is below 2 ^ 32, takes between one and ten bytes, and ends within the
-- buffer.
pub varint_32_bounds :
    (buffer : List ℕ) (pos v next : ℕ)
    → decode_varint_32 buffer pos ≡ ok (v, next)
    → (v < 2 ^ 32) × (pos < next) × (next ≤ pos + 10) × (next ≤ length buffer)
unfolding decode_varint_32
varint_32_bounds buffer pos v next h =
    omega (arith, decode_loop_bounds 10 (2 ^ 32 - 1) buffer pos 0 0 v next h)

pub varint_32-append :
    (buffer more : List ℕ) (pos : ℕ)
    → decode_varint_32 buffer pos ≢ raised index_error
    → decode_varint_32 (buffer ++ more) pos ≡ decode_varint_32 buffer pos
unfolding decode_varint_32
varint_32-append buffer more pos h = decode_loop-append 10 (2 ^ 32 - 1) buffer more pos 0 0 h

-- The loop of the decoder always comes to a value or an exception: its bound of ten rounds is never
-- used up.
pub varint_32-ne-stuck : (buffer : List ℕ) (pos : ℕ) → decode_varint_32 buffer pos ≢ stuck
unfolding decode_varint_32
varint_32-ne-stuck buffer pos =
    decode_loop-ne-stuck 10 (2 ^ 32 - 1) buffer pos 0 0 (omega arith) (omega arith)

pub varint_32-ne-partial :
    (buffer : List ℕ) (pos : ℕ) → decode_varint_32 buffer pos ≢ raised partial_message
unfolding decode_varint_32
varint_32-ne-partial buffer pos = decode_loop-ne-partial 10 (2 ^ 32 - 1) buffer pos 0 0
