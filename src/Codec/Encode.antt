-- ===== src/Codec/Encode.antt =====
-- What `encode_varint` writes, in plain arithmetic.
use glide_for_redis.Common.{
  ℕ, zero, suc, ◌+◌, ◌*◌, ◌/◌, ◌%◌, ◌^◌, ◌≤◌, ◌<◌, ◌≡◌, List, [], ◌∷◌, ◌++◌, append_assoc, length,
  bit_or, All, ltb, if◌then◌else◌, arith,
}
use native.Mathlib.Nat.{pow-suc}
use glide_for_redis.Common.Bits.{bit_and_group, bit_or_top}
use glide_for_redis.Codec.{encode_loop, varint_bytes}

-- The groups of seven bits of a value, lowest first, each but the last with the top bit set;
-- `k` bounds the number of groups behind the first.
unfoldable pub groups : ℕ → ℕ → List ℕ
groups zero v = v ∷ []
groups (suc k) v =
    let rest = groups k (v / 128) in if ltb v 128 then v ∷ [] else (v % 128 + 128) ∷ rest

pow_128 : (k : ℕ) → 128 ^ suc k ≡ 128 ^ k * 128
pow_128 k = pow-suc 128 k

encode_loop-groups :
    (k rounds : ℕ) (pieces : List ℕ) (bits value : ℕ)
    → bits < 128
    → value < rounds
    → value < 128 ^ k
    → encode_loop rounds pieces bits value ≡ pieces ++ groups k (bits + 128 * value)
unfolding encode_loop groups
encode_loop-groups k zero pieces bits value hb hr hv = absurd (omega arith)
encode_loop-groups zero (suc rounds) pieces bits value hb hr hv = ground arith
encode_loop-groups (suc k) (suc rounds) pieces bits value hb hr hv = ground (
  arith,
  bit_or_top bits hb,
  bit_and_group value,
  encode_loop-groups k rounds (pieces ++ bit_or 0x80 bits ∷ []) (value % 128) (value / 128),
  pow_128 k,
  append_assoc pieces ((bits + 128) ∷ []) (groups k value),
)

-- The bytes of the varint are the groups of the value, whatever bound suffices for them.
pub varint_bytes-groups : (k value : ℕ) → value < 128 ^ suc k → varint_bytes value ≡ groups k value
unfolding varint_bytes
varint_bytes-groups k value h = ground (
  arith,
  bit_and_group value,
  pow_128 k,
  encode_loop-groups k (value + 1) [] (value % 128) (value / 128),
)

pub length-groups : (k v : ℕ) → (1 ≤ length (groups k v)) × (length (groups k v) ≤ k + 1)
unfolding groups
length-groups zero v = omega arith
length-groups (suc k) v = ground (arith, length-groups k (v / 128))

groups-IsByte : (k v : ℕ) → v < 128 ^ suc k → All (λ b. b < 256) (groups k v)
unfolding groups
groups-IsByte zero v h = omega arith
groups-IsByte (suc k) v h = ground (arith, pow_128 (suc k), groups-IsByte k (v / 128))

-- A varint below 128 ^ (k + 1) takes at least one byte and at most k + 1, each of them below 256.
varint_bytes_shape :
    (k value : ℕ)
    → value < 128 ^ suc k
    → All (λ b. b < 256) (varint_bytes value)
      × (1 ≤ length (varint_bytes value))
      × (length (varint_bytes value) ≤ k + 1)
varint_bytes_shape k value h =
    let (lo, hi) = length-groups k value in
    rw (varint_bytes-groups k value h) (groups-IsByte k value h, lo, hi)
