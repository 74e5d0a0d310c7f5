-- ===== src/Commands/Core/Strings.antt =====
-- The methods of `CoreCommands` on strings and on keys in general.
use glide_for_redis.Common.{Bool, Option, none, some, String, List, [], ◌∷◌, ◌++◌, if◌then◌else◌}
use glide_for_redis.Common.Text.{ℤ, str}
use glide_for_redis.Protocol.{RequestType}
use glide_for_redis.Routes.{Route}
use glide_for_redis.Commands.Options.{
  ConditionalSet, only_if_exists, only_if_does_not_exist, ExpirySet, get_cmd_args,
}

-- `for pair in m.items(): parameters.extend(pair)`
abbrev pub extend_pairs : List String → List (String × String) → List String
extend_pairs parameters [] = parameters
extend_pairs parameters ((k, v) ∷ pairs) = extend_pairs (parameters ++ k ∷ v ∷ []) pairs

abbrev pub conditional_set_args : Option ConditionalSet → List String
conditional_set_args none = []
conditional_set_args (some only_if_exists) = "XX" ∷ []
conditional_set_args (some only_if_does_not_exist) = "NX" ∷ []

abbrev pub expiry_args : Option ExpirySet → List String
expiry_args none = []
expiry_args (some expiry) = get_cmd_args expiry

module _ {R F : Type 0} (str_float : F → String)
    (execute_command : RequestType → List String → Option Route → R) where
  unfoldable pub set : String → String → Option ConditionalSet → Option ExpirySet → Bool → R
  set key value conditional_set expiry return_old_value =
      let args = key ∷ value ∷ [] in
      let args' = args ++ conditional_set_args conditional_set in
      let args'' = if return_old_value then args' ++ "GET" ∷ [] else args' in
      execute_command RequestType.set_string (args'' ++ expiry_args expiry) none

  unfoldable pub get : String → R
  get key = execute_command RequestType.get_string (key ∷ []) none

  unfoldable pub delete : List String → R
  delete keys = execute_command RequestType.del keys none

  unfoldable pub incr : String → R
  incr key = execute_command RequestType.incr (key ∷ []) none

  unfoldable pub incrby : String → ℤ → R
  incrby key amount = execute_command RequestType.incr_by (key ∷ str amount ∷ []) none

  unfoldable pub incrbyfloat : String → F → R
  incrbyfloat key amount =
      execute_command RequestType.incr_by_float (key ∷ str_float amount ∷ []) none

  unfoldable pub mset : List (String × String) → R
  mset key_value_map = execute_command RequestType.mset (extend_pairs [] key_value_map) none

  unfoldable pub mget : List String → R
  mget keys = execute_command RequestType.mget keys none

  unfoldable pub decr : String → R
  decr key = execute_command RequestType.decr (key ∷ []) none

  unfoldable pub decrby : String → ℤ → R
  decrby key amount = execute_command RequestType.decr_by (key ∷ str amount ∷ []) none
