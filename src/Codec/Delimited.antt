-- ===== src/Codec/Delimited.antt =====
-- `decode_delimited` on any buffer, and on what `encode_delimited` wrote.
use glide_for_redis.Common.{
  ℕ, ◌+◌, ◌^◌, ◌≤◌, ◌<◌, ◌≡◌, ◌≢◌, ◌⊎◌, inl, inr, refl, List, [], ◌∷◌, ◌++◌, Option, some, length,
  take, drop, append_assoc, append-nil, length-append, length-drop, take-length, drop-length,
  drop-drop, drop-append_le, take-append_le, arith,
}
use glide_for_redis.Codec.{
  Decoded, ok, raised, stuck, index_error, partial_message, decode_error, decode_varint_32,
  varint_bytes, parse_message, decode_delimited, encode_delimited,
}
use glide_for_redis.Codec.Decode.{
  varint_32-drop, varint_32_bounds, varint_32-append, varint_32-ne-stuck, varint_32-ne-partial,
}
use glide_for_redis.Codec.RoundTrip.{varint_32-varint_bytes}

-- To split on a decoded value and keep the equation.
pub Decoded-cases {ℓ} :
    {A : Type ℓ} (d : Decoded A)
    → d ≢ stuck
    → (d ≡ raised index_error)
      ⊎ (d ≡ raised partial_message)
      ⊎ (d ≡ raised decode_error)
      ⊎ ((a : A) × (d ≡ ok a))
Decoded-cases (ok a) h = inr (inr (inr (a, refl)))
Decoded-cases (raised index_error) h = inl refl
Decoded-cases (raised partial_message) h = inr (inl refl)
Decoded-cases (raised decode_error) h = inr (inr (inl refl))
Decoded-cases stuck h = absurd (h refl)

module _ {M : Type 0} (parse : List ℕ → Option M) where
  parse_message_bounds :
      (bytes : List ℕ) (offset next : ℕ) (m : M)
      → parse_message parse bytes offset ≡ ok (m, next)
      → next ≡ offset
  unfolding parse_message
  parse_message_bounds bytes offset next m h = ground arith

  -- No byte is a partial message.
  pub delimited_nil : decode_delimited parse [] 0 ≡ raised partial_message
  unfolding decode_delimited decode_varint_32
  delimited_nil = refl

  -- A message that is decoded takes at least one byte and ends within the buffer.
  pub delimited_bounds :
      (buffer : List ℕ) (offset : ℕ) (m : M) (next : ℕ)
      → decode_delimited parse buffer offset ≡ ok (m, next)
      → (offset < next) × (next ≤ length buffer)
  unfolding decode_delimited
  delimited_bounds buffer offset m next h =
      elim (Decoded-cases (decode_varint_32 buffer offset) (varint_32-ne-stuck buffer offset)) [
        | inl e ↦ ground arith
        | inr (inl e) ↦ ground arith
        | inr (inr (inl e)) ↦ ground arith
        | inr (inr (inr ((v, pos), e))) ↦ ground (
          arith,
          varint_32_bounds buffer offset v pos e,
          parse_message_bounds (take v (drop pos buffer)) (pos + v) next m,
        )
      ]

  parse_message-ne-stuck : (bytes : List ℕ) (offset : ℕ) → parse_message parse bytes offset ≢ stuck
  unfolding parse_message
  parse_message-ne-stuck bytes offset h = ground arith

  parse_message-ne-raised :
      (bytes : List ℕ) (offset : ℕ)
      → (parse_message parse bytes offset ≢ raised index_error)
        × (parse_message parse bytes offset ≢ raised partial_message)
  unfolding parse_message
  parse_message-ne-raised bytes offset = ground arith

  pub delimited-ne-stuck :
      (buffer : List ℕ) (offset : ℕ) → decode_delimited parse buffer offset ≢ stuck
  unfolding decode_delimited
  delimited-ne-stuck buffer offset =
      elim (Decoded-cases (decode_varint_32 buffer offset) (varint_32-ne-stuck buffer offset)) [
        | inl e ↦ ground arith
        | inr (inl e) ↦ ground arith
        | inr (inr (inl e)) ↦ ground arith
        | inr (inr (inr ((v, pos), e))) ↦
            ground (arith, parse_message-ne-stuck (take v (drop pos buffer)) (pos + v))
      ]

  pub delimited-ne-index_error :
      (buffer : List ℕ) (offset : ℕ) → decode_delimited parse buffer offset ≢ raised index_error
  unfolding decode_delimited
  delimited-ne-index_error buffer offset =
      elim (Decoded-cases (decode_varint_32 buffer offset) (varint_32-ne-stuck buffer offset)) [
        | inl e ↦ ground arith
        | inr (inl e) ↦ ground arith
        | inr (inr (inl e)) ↦ ground arith
        | inr (inr (inr ((v, pos), e))) ↦
            ground (arith, parse_message-ne-raised (take v (drop pos buffer)) (pos + v))
      ]

  -- More bytes behind the buffer change no answer but that of a partial message.
  pub delimited-append :
      (buffer more : List ℕ) (offset : ℕ)
      → decode_delimited parse buffer offset ≢ raised partial_message
      → decode_delimited parse (buffer ++ more) offset ≡ decode_delimited parse buffer offset
  unfolding decode_delimited
  delimited-append buffer more offset h =
      elim (Decoded-cases (decode_varint_32 buffer offset) (varint_32-ne-stuck buffer offset)) [
        | inl e ↦ absurd (h (rw (e, decode_delimited)))
        | inr (inl e) ↦ absurd (varint_32-ne-partial buffer offset e)
        | inr (inr (inl e)) ↦ ground (arith, varint_32-append buffer more offset)
        | inr (inr (inr ((v, pos), e))) ↦ ground (
          arith,
          varint_32-append buffer more offset,
          varint_32_bounds buffer offset v pos e,
          length-append buffer more,
          length-drop pos buffer,
          drop-append_le pos buffer more,
          take-append_le v (drop pos buffer) more,
        )
      ]

  -- The same answer, its offset counted from `p` places further back.
  abbrev pub advance_message : ℕ → Decoded (M × ℕ) → Decoded (M × ℕ)
  advance_message p (ok (m, next)) = ok (m, p + next)
  advance_message p (raised e) = raised e
  advance_message p stuck = stuck

  parse_message-advance :
      (p : ℕ) (bytes : List ℕ) (offset : ℕ)
      → parse_message parse bytes (p + offset)
        ≡ advance_message p (parse_message parse bytes offset)
  unfolding parse_message
  parse_message-advance p bytes offset = ground arith

  -- What stands before the offset does not matter.
  pub delimited-drop :
      (buffer : List ℕ) (p : ℕ)
      → p ≤ length buffer
      → decode_delimited parse buffer p
        ≡ advance_message p (decode_delimited parse (drop p buffer) 0)
  unfolding decode_delimited
  delimited-drop buffer p h =
      elim (Decoded-cases (decode_varint_32 (drop p buffer) 0) (varint_32-ne-stuck _ 0)) [
        | inl e ↦ ground (arith, varint_32-drop buffer p)
        | inr (inl e) ↦ ground (arith, varint_32-drop buffer p)
        | inr (inr (inl e)) ↦ ground (arith, varint_32-drop buffer p)
        | inr (inr (inr ((v, pos), e))) ↦
            let regroup : p + (pos + v) ≡ p + pos + v = omega arith in
            ground (
              arith,
              varint_32-drop buffer p,
              length-drop p buffer,
              drop-drop pos p buffer,
              rw regroup at (parse_message-advance p (take v (drop (p + pos) buffer)) (pos + v)),
            )
      ]

  module _ (serialize : M → List ℕ) where
    -- The bytes that `encode_delimited` appends for one message.
    abbrev pub frame : M → List ℕ
    frame m = encode_delimited serialize [] m

    pub encode_delimited-frame :
        (b_arr : List ℕ) (m : M) → encode_delimited serialize b_arr m ≡ b_arr ++ frame m
    unfolding encode_delimited
    encode_delimited-frame b_arr m =
        append_assoc b_arr (varint_bytes (length (serialize m))) (serialize m)

    pub length-frame :
        (m : M)
        → length (frame m) ≡ length (varint_bytes (length (serialize m))) + length (serialize m)
    unfolding encode_delimited
    length-frame m = length-append (varint_bytes (length (serialize m))) (serialize m)

    -- A message shorter than 2 ^ 32 bytes that protobuf reads back is decoded from where
    -- `encode_delimited` put it, and the offset returned is the one behind it.
    pub decode_delimited-encode_delimited :
        (front : List ℕ) (m : M) (rest : List ℕ)
        → length (serialize m) < 2 ^ 32
        → parse (serialize m) ≡ some m
        → decode_delimited parse (encode_delimited serialize front m ++ rest) (length front)
          ≡ ok (m, length (encode_delimited serialize front m))
    unfolding decode_delimited encode_delimited parse_message
    decode_delimited-encode_delimited front m rest fits parsed =
        let body : List ℕ = serialize m in
        let head : List ℕ = varint_bytes (length body) in
        rw (append_assoc (front ++ head) body rest) (
          ground (
            arith,
            parsed,
            varint_32-varint_bytes front (length body) (body ++ rest) fits,
            length-append (front ++ head) (body ++ rest),
            length-append (front ++ head) body,
            length-append body rest,
            length-append front head,
            drop-length (front ++ head) (body ++ rest),
            take-length body rest,
          ))

    frame_decodes :
        (m : M)
        → length (serialize m) < 2 ^ 32
        → parse (serialize m) ≡ some m
        → decode_delimited parse (frame m) 0 ≡ ok (m, length (frame m))
    frame_decodes m fits parsed =
        rw (append-nil (frame m)) at (decode_delimited-encode_delimited [] m [] fits parsed)

    -- Of a message that is cut short anywhere before its end, `decode_delimited` says that it is
    -- partial: it neither fails otherwise nor returns anything.
    pub decode_delimited_truncated :
        (m : M) (front : List ℕ) (x : ℕ) (back : List ℕ)
        → length (serialize m) < 2 ^ 32
        → parse (serialize m) ≡ some m
        → frame m ≡ front ++ x ∷ back
        → decode_delimited parse front 0 ≡ raised partial_message
    decode_delimited_truncated m front x back fits parsed e =
        elim (Decoded-cases (decode_delimited parse front 0) (delimited-ne-stuck front 0)) [
          | inl d ↦ absurd (delimited-ne-index_error front 0 d)
          | inr (inl d) ↦ d
          | inr (inr (inl d)) ↦ cc (d, delimited-append front (x ∷ back) 0 (λ p. cc (p, d)), whole)
          | inr (inr (inr ((m', next), d))) ↦ ground (
            arith,
            d,
            delimited-append front (x ∷ back) 0 (λ p. cc (p, d)),
            whole,
            delimited_bounds front 0 m' next d,
            length-append front (x ∷ back),
          )
        ]
      where
        whole : decode_delimited parse (front ++ x ∷ back) 0 ≡ ok (m, length (front ++ x ∷ back))
        whole = rw e at (frame_decodes m fits parsed)
