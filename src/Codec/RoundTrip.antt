-- ===== src/Codec/RoundTrip.antt =====
-- What was encoded is decoded again, wherever it stands in the buffer.
use native.Mathlib.Nat.{pow-suc}
use native.Mathlib.Numerals.{towards_suc}
use glide_for_redis.Common.{
  ℕ, zero, suc, ◌+◌, ◌-◌, ◌*◌, ◌/◌, ◌%◌, ◌^◌, ◌<◌, ◌≡◌, ap, ◌∙◌, bit_and, List, ◌∷◌, ◌++◌, length,
  append_assoc, drop-length, arith,
}
use glide_for_redis.Common.Bits.{bit_or_disjoint, bit_and_fits, bit_and_group, bit_and_top}
use glide_for_redis.Codec.{ok, decode_loop, decode_varint_32, varint_bytes}
use glide_for_redis.Codec.Encode.{groups, varint_bytes-groups}
use glide_for_redis.Codec.Decode.{advance, decode_loop-drop, varint_32-drop}

-- A round on a last byte ends the loop.
last_round :
    (rounds mask w result shift : ℕ) (rest : List ℕ)
    → w < 128
    → result < 2 ^ shift
    → decode_loop (suc rounds) mask (w ∷ rest) 0 result shift
      ≡ ok (bit_and (result + w * 2 ^ shift) mask, 1)
unfolding decode_loop
last_round rounds mask w result shift rest hw hr =
    ground (arith, bit_and_group w, bit_and_top w, bit_or_disjoint shift result w hr)

-- A round on a byte with the top bit set adds its group and goes on behind it.
inner_round :
    (rounds mask g result shift : ℕ) (rest : List ℕ)
    → g < 128
    → result < 2 ^ shift
    → shift + 7 < 64
    → decode_loop (suc rounds) mask ((g + 128) ∷ rest) 0 result shift
      ≡ advance 1 (decode_loop rounds mask rest 0 (result + g * 2 ^ shift) (shift + 7))
unfolding decode_loop
inner_round rounds mask g result shift rest hg hr hs = ground (
  arith,
  bit_and_group (g + 128),
  bit_and_top (g + 128),
  bit_or_disjoint shift result g hr,
  decode_loop-drop rounds mask ((g + 128) ∷ rest) 1 0 (result + g * 2 ^ shift) (shift + 7),
)

pow_seven : (s : ℕ) → 2 ^ (s + 7) ≡ 128 * 2 ^ s
pow_seven s = simp towards_suc (omega arith)

-- One group more still fits the shift that follows.
group_fits : (g result s : ℕ) → g < 128 → result < 2 ^ s → result + g * 2 ^ s < 2 ^ (s + 7)
group_fits g result s hg hr = grind (arith, pow_seven s)

group_split : (w s : ℕ) → w * 2 ^ s ≡ w % 128 * 2 ^ s + w / 128 * 2 ^ (s + 7)
group_split w s =
    let parts : w ≡ w % 128 + 128 * (w / 128) = omega arith in
    omega (arith, ap (λ (t : ℕ). t * 2 ^ s) parts, ap (λ (t : ℕ). w / 128 * t) (pow_seven s))

-- `w` is what is still to be read, `result` what has been read below the shift.
decode_loop-groups :
    (k rounds mask w result shift : ℕ) (rest : List ℕ)
    → k < rounds
    → w < 128 ^ suc k
    → result < 2 ^ shift
    → shift + 7 * k < 64
    → decode_loop rounds mask (groups k w ++ rest) 0 result shift
      ≡ ok (bit_and (result + w * 2 ^ shift) mask, length (groups k w))
unfolding groups
decode_loop-groups k zero mask w result shift rest hk hw hr hs = absurd (omega arith)
decode_loop-groups zero (suc rounds) mask w result shift rest hk hw hr hs =
    last_round rounds mask w result shift rest hw hr
decode_loop-groups (suc k) (suc rounds) mask w result shift rest hk hw hr hs = ground (
  arith,
  pow-suc 128 (suc k),
  last_round rounds mask w result shift rest,
  group_split w shift,
  group_fits (w % 128) result shift,
  inner_round rounds mask (w % 128) result shift (groups k (w / 128) ++ rest),
  decode_loop-groups k rounds mask (w / 128) (result + w % 128 * 2 ^ shift) (shift + 7) rest,
)

varint_32-front :
    (v : ℕ) (rest : List ℕ)
    → v < 2 ^ 32
    → decode_varint_32 (varint_bytes v ++ rest) 0 ≡ ok (v, length (varint_bytes v))
unfolding decode_varint_32
varint_32-front v rest h =
    let fits : v < 128 ^ 5 = omega arith in
    rw (varint_bytes-groups 4 v fits) (
      ground (
        arith,
        bit_and_fits 32 v h,
        decode_loop-groups 4 10 (2 ^ 32 - 1) v 0 0 rest (omega arith) fits (omega arith)
            (omega arith),
      ))

-- The varint of a 32-bit value is read back from where it was written, and the position returned
-- is the one behind its last byte, whatever stands before and behind it.
pub varint_32-varint_bytes :
    (front : List ℕ) (v : ℕ) (rest : List ℕ)
    → v < 2 ^ 32
    → decode_varint_32 (front ++ varint_bytes v ++ rest) (length front)
      ≡ ok (v, length front + length (varint_bytes v))
varint_32-varint_bytes front v rest h =
    varint_32-drop (front ++ varint_bytes v ++ rest) (length front)
    ∙ rw (append_assoc front (varint_bytes v) rest, drop-length front (varint_bytes v ++ rest))
        (rw (varint_32-front v rest h))
