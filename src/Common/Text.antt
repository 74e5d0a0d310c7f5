-- ===== src/Common/Text.antt =====
-- Python's `int` and what `str` makes of it.
use Prim.Native.Nat.{ℕ, zero, suc, ◌/◌, ◌%◌}
use Prim.Native.String.{String, ◌++◌ as ◌<>◌}
use glide_for_redis.Common.Tests.{ltb, ◌==◌, if◌then◌else◌}
use mathlib.Core.Bool.{Bool, false}

-- `negsuc n` is -(n + 1).
pub data ℤ : Type 0 where
  pos : ℕ → ℤ
  negsuc : ℕ → ℤ

-- Whether an `int` is false under `if`.
abbrev pub is_zero : ℤ → Bool
is_zero (pos n) = n == 0
is_zero (negsuc n) = false

digit : ℕ → String
digit zero = "0"
digit (suc zero) = "1"
digit (suc (suc zero)) = "2"
digit (suc (suc (suc zero))) = "3"
digit (suc (suc (suc (suc zero)))) = "4"
digit (suc (suc (suc (suc (suc zero))))) = "5"
digit (suc (suc (suc (suc (suc (suc zero)))))) = "6"
digit (suc (suc (suc (suc (suc (suc (suc zero))))))) = "7"
digit (suc (suc (suc (suc (suc (suc (suc (suc zero)))))))) = "8"
digit (suc (suc (suc (suc (suc (suc (suc (suc (suc n))))))))) = "9"

-- Each round takes a digit off, so the number itself bounds the rounds.
str_loop : ℕ → ℕ → String
unfolding digit
str_loop zero n = digit n
str_loop (suc rounds) n =
    let rest = str_loop rounds (n / 10) in if ltb n 10 then digit n else rest <> digit (n % 10)

unfoldable pub str : ℤ → String
unfolding str_loop
str (pos n) = str_loop n n
str (negsuc n) = "-" <> str_loop (suc n) (suc n)
