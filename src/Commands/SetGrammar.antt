-- ===== src/Commands/SetGrammar.antt =====
-- The options of `SET` on the wire, against the grammar of the command:
-- SET key value [NX | XX] [GET] [EX n | PX n | EXAT n | PXAT n | KEEPTTL].
use text.Mathlib.Text.{◌==◌}
use glide_for_redis.Common.{
  ◌≡◌, ◌≢◌, refl, Bool, true, false, Option, none, some, String, List, [], ◌∷◌, ◌++◌, if◌then◌else◌,
}
use glide_for_redis.Commands.Options.{
  ConditionalSet, only_if_exists, only_if_does_not_exist, ExpiryType, sec, millsec, unix_sec,
  unix_millsec, keep_ttl, ExpirySet, expiry_arg, get_cmd_args,
}
use glide_for_redis.Commands.Core.{set, conditional_set_args, expiry_args}

-- The options as a server reads them; the outer `none` is its syntax error.
pub record SetOptions : Type 0 where
  pub condition : Option ConditionalSet
  pub return_old_value : Bool
  pub expiry : Option ExpirySet

pub timed : ExpiryType → String → Option (Option ExpirySet)
timed t v = some (some (record { expiry_type = t; cmd_arg = expiry_arg t; value = some v }))

pub read_expiry : List String → Option (Option ExpirySet)
unfolding timed
read_expiry [] = some none
read_expiry (w ∷ []) =
    if w == "KEEPTTL"
    then some (some (record { expiry_type = keep_ttl; cmd_arg = w; value = none }))
    else none
read_expiry (w ∷ v ∷ []) =
    if w == "EX"
    then timed sec v
    else if w == "PX"
    then timed millsec v
    else if w == "EXAT"
    then timed unix_sec v
    else if w == "PXAT"
    then timed unix_millsec v
    else none
read_expiry (w ∷ v ∷ x ∷ rest) = none

pub with_expiry : Option ConditionalSet → Bool → Option (Option ExpirySet) → Option SetOptions
with_expiry condition flag none = none
with_expiry condition flag (some e) =
    some (record { condition = condition; return_old_value = flag; expiry = e })

pub read_get : Option ConditionalSet → List String → Option SetOptions
unfolding with_expiry read_expiry
read_get condition [] = with_expiry condition false (read_expiry [])
read_get condition (w ∷ rest) =
    if w == "GET"
    then with_expiry condition true (read_expiry rest)
    else with_expiry condition false (read_expiry (w ∷ rest))

unfoldable pub read_options : List String → Option SetOptions
unfolding read_get
read_options [] = read_get none []
read_options (w ∷ rest) =
    if w == "XX"
    then read_get (some only_if_exists) rest
    else if w == "NX"
    then read_get (some only_if_does_not_exist) rest
    else read_get none (w ∷ rest)

unfoldable pub read_set : List String → Option (String × String × SetOptions)
unfolding read_options
read_set (key ∷ value ∷ rest) = elim (read_options rest) [
  | none ↦ none
  | some o ↦ some (key, value, o)
]
read_set _ = none

-- The arguments that `set` hands to `_execute_command`.
abbrev pub set_args :
    String → String → Option ConditionalSet → Option ExpirySet → Bool → List String
set_args key value condition expiry flag =
    set (λ (s : String). s) (λ _ args _. args) key value condition expiry flag

-- An expiry whose value is there exactly if its type wants one.
pub data IsComplete : ExpirySet → Type 0 where
  kept : IsComplete (record { expiry_type = keep_ttl; cmd_arg = "KEEPTTL"; value = none })
  valued :
      (t : ExpiryType) (v : String)
      → t ≢ keep_ttl
      → IsComplete (record { expiry_type = t; cmd_arg = expiry_arg t; value = some v })

abbrev pub Complete : Option ExpirySet → Type 0
Complete none = Unit {0}
Complete (some e) = IsComplete e

read_expiry-get_cmd_args :
    (e : ExpirySet) → IsComplete e → read_expiry (get_cmd_args e) ≡ some (some e)
unfolding read_expiry get_cmd_args expiry_arg
read_expiry-get_cmd_args e kept = refl
read_expiry-get_cmd_args e (valued sec v h) = refl
read_expiry-get_cmd_args e (valued millsec v h) = refl
read_expiry-get_cmd_args e (valued unix_sec v h) = refl
read_expiry-get_cmd_args e (valued unix_millsec v h) = refl
read_expiry-get_cmd_args e (valued keep_ttl v h) = absurd (h refl)

abbrev pub options : Option ConditionalSet → Bool → Option ExpirySet → SetOptions
options condition flag e = record { condition = condition; return_old_value = flag; expiry = e }

unfoldable pub get_args : Bool → List String
get_args true = "GET" ∷ []
get_args false = []

read_get_lem :
    (c : Option ConditionalSet) (flag : Bool) (e : Option ExpirySet)
    → Complete e
    → read_get c (get_args flag ++ expiry_args e) ≡ some (options c flag e)
unfolding read_get get_args get_cmd_args expiry_arg
read_get_lem c true none h = refl
read_get_lem c false none h = refl
read_get_lem c true (some e) h = rw (read_expiry-get_cmd_args e h)
read_get_lem c false (some e) kept = refl
read_get_lem c false (some e) (valued sec v h) = refl
read_get_lem c false (some e) (valued millsec v h) = refl
read_get_lem c false (some e) (valued unix_sec v h) = refl
read_get_lem c false (some e) (valued unix_millsec v h) = refl
read_get_lem c false (some e) (valued keep_ttl v h) = absurd (h refl)

read_options_lem :
    (c : Option ConditionalSet) (flag : Bool) (e : Option ExpirySet)
    → Complete e
    → read_options (conditional_set_args c ++ (get_args flag ++ expiry_args e))
      ≡ some (options c flag e)
unfolding read_options get_args get_cmd_args expiry_arg
read_options_lem (some only_if_exists) flag e h = read_get_lem (some only_if_exists) flag e h
read_options_lem (some only_if_does_not_exist) flag e h =
    read_get_lem (some only_if_does_not_exist) flag e h
read_options_lem none true e h = read_get_lem none true e h
read_options_lem none false none h = read_get_lem none false none tt
read_options_lem none false (some e) kept = refl
read_options_lem none false (some e) (valued sec v h) = refl
read_options_lem none false (some e) (valued millsec v h) = refl
read_options_lem none false (some e) (valued unix_sec v h) = refl
read_options_lem none false (some e) (valued unix_millsec v h) = refl
read_options_lem none false (some e) (valued keep_ttl v h) = absurd (h refl)

pub set_args_lem :
    (key value : String) (c : Option ConditionalSet) (e : Option ExpirySet) (flag : Bool)
    → set_args key value c e flag
      ≡ key ∷ value ∷ (conditional_set_args c ++ (get_args flag ++ expiry_args e))
unfolding set get_args
set_args_lem key value none e true = refl
set_args_lem key value none e false = refl
set_args_lem key value (some only_if_exists) e true = refl
set_args_lem key value (some only_if_exists) e false = refl
set_args_lem key value (some only_if_does_not_exist) e true = refl
set_args_lem key value (some only_if_does_not_exist) e false = refl

-- Read by the grammar of the command, the arguments of `set` give back its key, value, condition,
-- flag and expiry, whatever they are, when the expiry carries a value exactly if its type wants one.
pub read_set-set_args :
    (key value : String) (c : Option ConditionalSet) (e : Option ExpirySet) (flag : Bool)
    → Complete e
    → read_set (set_args key value c e flag) ≡ some (key, value, options c flag e)
unfolding read_set
read_set-set_args key value c e flag h =
    rw (set_args_lem key value c e flag) (rw (read_options_lem c flag e h, read_set))
