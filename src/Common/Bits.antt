-- ===== src/Common/Bits.antt =====
-- What the codec needs of `&` and `|` at variables, from the digit recursion that they stand for.
use Prim.Native.Nat.{
  ℕ, zero, suc, ◌+◌, ◌-◌, ◌*◌, ◌/◌, ◌%◌, ◌^◌, ◌≤◌, ◌<◌, min, max, bit_and, bit_or, digits,
  bit_and-bitwise, bit_or-bitwise,
}
use mathlib.Core.Path.{◌≡◌, refl, ap}
use mathlib.Core.Bool.{Bool, true, ◌&&◌}
use glide_for_redis.Common.Tests.{◌==◌}
use native.Mathlib.Nat.{pow-suc, one-le-pow}
use native.Mathlib.Omega.{arith}

module _ (z : ℕ → ℕ) (f : ℕ → ℕ → ℕ) where
  digits_enough : (n m a b : ℕ) → a ≤ n → a ≤ m → digits z f n a b ≡ digits z f m a b
  digits_enough zero zero zero b p q = refl
  digits_enough zero zero (suc a) b p q = absurd (omega arith)
  digits_enough zero (suc m) zero b p q = refl
  digits_enough zero (suc m) (suc a) b p q = absurd (omega arith)
  digits_enough (suc n) zero zero b p q = refl
  digits_enough (suc n) zero (suc a) b p q = absurd (omega arith)
  digits_enough (suc n) (suc m) zero b p q = refl
  digits_enough (suc n) (suc m) (suc a) b p q =
      rw (digits_enough n m (suc a / 2) (b / 2) (omega arith) (omega arith))

or_low_digit : (a b : ℕ) → bit_or a b ≡ bit_or (a / 2) (b / 2) * 2 + max (a % 2) (b % 2)
or_low_digit zero b = omega (arith, bit_or-bitwise zero b, bit_or-bitwise zero (b / 2))
or_low_digit (suc a) b = omega (
  arith,
  bit_or-bitwise (suc a) b,
  bit_or-bitwise (suc a / 2) (b / 2),
  digits_enough (λ y. y) max a (suc a / 2) (suc a / 2) (b / 2) (omega arith) (omega arith),
)

and_low_digit : (a b : ℕ) → bit_and a b ≡ bit_and (a / 2) (b / 2) * 2 + min (a % 2) (b % 2)
and_low_digit zero b = omega (arith, bit_and-bitwise zero b, bit_and-bitwise zero (b / 2))
and_low_digit (suc a) b = omega (
  arith,
  bit_and-bitwise (suc a) b,
  bit_and-bitwise (suc a / 2) (b / 2),
  digits_enough (λ y. zero) min a (suc a / 2) (suc a / 2) (b / 2) (omega arith) (omega arith),
)

double : (q k : ℕ) → q * 2 ^ suc k ≡ 2 * (q * 2 ^ k)
double q k = omega (arith, ap (λ (t : ℕ). q * t) (pow-suc 2 k))

-- With no common digit, `|` is a sum: a value below 2 ^ k joins one shifted by k.
pub bit_or_disjoint : (k r q : ℕ) → r < 2 ^ k → bit_or r (q * 2 ^ k) ≡ r + q * 2 ^ k
bit_or_disjoint zero zero q h = omega (arith, bit_or-bitwise zero (q * 2 ^ 0))
bit_or_disjoint zero (suc r) q h = absurd (omega arith)
bit_or_disjoint (suc k) r q h = ground (
  arith,
  or_low_digit r (q * 2 ^ suc k),
  double q k,
  pow-suc 2 k,
  bit_or_disjoint k (r / 2) q (omega (arith, pow-suc 2 k)),
)

-- A mask of k ones leaves a value that fits k bits as it is.
pub bit_and_fits : (k r : ℕ) → r < 2 ^ k → bit_and r (2 ^ k - 1) ≡ r
bit_and_fits zero r h = ground (arith, bit_and-bitwise zero (2 ^ 0 - 1))
bit_and_fits (suc k) r h = ground (
  arith,
  and_low_digit r (2 ^ suc k - 1),
  pow-suc 2 k,
  one-le-pow k 2,
  bit_and_fits k (r / 2) (omega (arith, pow-suc 2 k)),
)

-- A masked value is at most the mask.
bit_and_fuel-le : (n a b : ℕ) → a ≤ n → bit_and a b ≤ b
bit_and_fuel-le zero zero b h = omega (arith, bit_and-bitwise zero b)
bit_and_fuel-le (suc n) zero b h = omega (arith, bit_and-bitwise zero b)
bit_and_fuel-le zero (suc a) b h = absurd (omega arith)
bit_and_fuel-le (suc n) (suc a) b h =
    omega (arith, and_low_digit (suc a) b, bit_and_fuel-le n (suc a / 2) (b / 2) (omega arith))

pub bit_and-le_right : (a b : ℕ) → bit_and a b ≤ b
bit_and-le_right a b = bit_and_fuel-le a a b (omega arith)

-- A table of values is checked row by row.
same_rows : (f g : ℕ → ℕ) → ℕ → Bool
same_rows f g zero = true
same_rows f g (suc n) = f n == g n && same_rows f g n

same_rows-eq : (f g : ℕ → ℕ) (n x : ℕ) → same_rows f g n ≡ true → x < n → f x ≡ g x
unfolding same_rows
same_rows-eq f g zero x t h = absurd (omega arith)
same_rows-eq f g (suc n) x t h = ground (arith, same_rows-eq f g n x)

pub bit_and_top : (b : ℕ) → b < 256 → bit_and b 0x80 ≡ b / 128 * 128
unfolding same_rows
bit_and_top b h = same_rows-eq (λ x. bit_and x 0x80) (λ x. x / 128 * 128) 256 b refl h

pub bit_or_top : (b : ℕ) → b < 128 → bit_or 0x80 b ≡ b + 128
unfolding same_rows
bit_or_top b h = same_rows-eq (λ x. bit_or 0x80 x) (λ x. x + 128) 128 b refl h

-- A mask of one bit more leaves one digit more.
and_mask_1 : (a : ℕ) → bit_and a 1 ≡ a % 2
and_mask_1 a = omega (arith, and_low_digit a 1, bit_and-le_right (a / 2) 0)

and_mask_2 : (a : ℕ) → bit_and a 3 ≡ a % 4
and_mask_2 a = omega (arith, and_low_digit a 3, and_mask_1 (a / 2))

and_mask_3 : (a : ℕ) → bit_and a 7 ≡ a % 8
and_mask_3 a = omega (arith, and_low_digit a 7, and_mask_2 (a / 2))

and_mask_4 : (a : ℕ) → bit_and a 15 ≡ a % 16
and_mask_4 a = omega (arith, and_low_digit a 15, and_mask_3 (a / 2))

and_mask_5 : (a : ℕ) → bit_and a 31 ≡ a % 32
and_mask_5 a = omega (arith, and_low_digit a 31, and_mask_4 (a / 2))

and_mask_6 : (a : ℕ) → bit_and a 63 ≡ a % 64
and_mask_6 a = omega (arith, and_low_digit a 63, and_mask_5 (a / 2))

-- The low seven bits.
pub bit_and_group : (a : ℕ) → bit_and a 0x7f ≡ a % 128
bit_and_group a = omega (arith, and_low_digit a 127, and_mask_6 (a / 2))
