-- ===== src/Manager/Text.antt =====
-- The operations on text that utils/cluster_manager.py uses.
use Prim.Native.Char.{Char, code}
use Prim.Native.String.{◌++◌ as ◌<>◌, len}
use text.Mathlib.Text.{◌==◌ as ◌=$=◌, find?, starts_with}
use glide_for_redis.Common.{
  ℕ, zero, suc, ◌+◌, ◌-◌, ◌*◌, Bool, true, false, ◌&&◌, ◌||◌, none, some, String, List, [], ◌∷◌,
  leb, ◌==◌, if◌then◌else◌,
}

-- `needle in text`
unfoldable pub contains : String → String → Bool
contains needle text = elim (find? text needle) [ none ↦ false | some _ ↦ true ]

abbrev pub is_space : Char → Bool
is_space c = (leb 9 (code c) && leb (code c) 13) || (code c == 32)

-- What `lstrip` leaves, of the white space of ASCII.
unfoldable pub lstrip : String → String
lstrip String.[] = ""
lstrip (String.◌∷◌ c s) = let rest = lstrip s in if is_space c then rest else String.◌∷◌ c s

unfoldable pub rstrip : String → String
rstrip String.[] = ""
rstrip (String.◌∷◌ c s) =
    let rest = rstrip s in if is_space c && (rest =$= "") then "" else String.◌∷◌ c rest

unfoldable pub strip : String → String
unfolding lstrip rstrip
strip s = rstrip (lstrip s)

abbrev all_digits : String → Bool
all_digits String.[] = true
all_digits (String.◌∷◌ c s) = leb 48 (code c) && (leb (code c) 57 && all_digits s)

-- `isdigit` and `int`, of the digits of ASCII.
unfoldable pub isdigit : String → Bool
isdigit String.[] = false
isdigit s = all_digits s

unfoldable pub join : String → List String → String
join separator [] = ""
join separator (s ∷ []) = s
join separator (s ∷ rest) = s <> (separator <> join separator rest)

-- `text.count(needle)`: occurrences that do not overlap, `skip` characters being part of the last.
count_from : ℕ → String → String → ℕ
count_from skip needle String.[] = if needle =$= "" then 1 else 0
count_from zero needle (String.◌∷◌ c s) =
    let found = 1 + count_from (len needle - 1) needle s in
    let missed = count_from 0 needle s in
    if starts_with (String.◌∷◌ c s) needle then found else missed
count_from (suc skip) needle (String.◌∷◌ c s) = count_from skip needle s

unfoldable pub count : String → String → ℕ
unfolding count_from
count text needle = count_from 0 needle text

digits_value : ℕ → String → ℕ
digits_value n String.[] = n
digits_value n (String.◌∷◌ c s) = digits_value (n * 10 + (code c - 48)) s

-- `int(text)`, where `isdigit` holds.
unfoldable pub int_of : String → ℕ
unfolding digits_value
int_of s = digits_value 0 s
