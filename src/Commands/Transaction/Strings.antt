-- ===== src/Commands/Transaction/Strings.antt =====
-- The methods of `BaseTransaction` on strings and the server, and `Transaction.select`.
use glide_for_redis.Common.{Bool, Option, String, List, [], ◌∷◌, ◌++◌, if◌then◌else◌}
use glide_for_redis.Common.Text.{ℤ, str}
use glide_for_redis.Protocol.{RequestType}
use glide_for_redis.Commands.Options.{ConditionalSet, ExpirySet, InfoSection}
use glide_for_redis.Commands.Core.{extend_pairs, conditional_set_args, expiry_args}
use glide_for_redis.Commands.Standalone.{info_args, ping_args}
use glide_for_redis.Commands.Batch.{BaseTransaction, append_command}

module _ (self : BaseTransaction) where
  unfoldable pub set :
      String → String → Option ConditionalSet → Option ExpirySet → Bool → BaseTransaction
  set key value conditional_set expiry return_old_value =
      let args = key ∷ value ∷ [] in
      let args' = args ++ conditional_set_args conditional_set in
      let args'' = if return_old_value then args' ++ "GET" ∷ [] else args' in
      append_command self RequestType.set_string (args'' ++ expiry_args expiry)

  unfoldable pub get : String → BaseTransaction
  get key = append_command self RequestType.get_string (key ∷ [])

  unfoldable pub custom_command : List String → BaseTransaction
  custom_command command_args = append_command self RequestType.custom_command command_args

  unfoldable pub info : Option (List InfoSection) → BaseTransaction
  info sections = append_command self RequestType.info (info_args sections)

  unfoldable pub delete : List String → BaseTransaction
  delete keys = append_command self RequestType.del keys

  unfoldable pub config_get : List String → BaseTransaction
  config_get parameters = append_command self RequestType.config_get parameters

  unfoldable pub config_set : List (String × String) → BaseTransaction
  config_set parameters_map =
      append_command self RequestType.config_set (extend_pairs [] parameters_map)

  unfoldable pub config_resetstat : BaseTransaction
  config_resetstat = append_command self RequestType.config_reset_stat []

  unfoldable pub mset : List (String × String) → BaseTransaction
  mset key_value_map = append_command self RequestType.mset (extend_pairs [] key_value_map)

  unfoldable pub mget : List String → BaseTransaction
  mget keys = append_command self RequestType.mget keys

  unfoldable pub config_rewrite : BaseTransaction
  config_rewrite = append_command self RequestType.config_rewrite []

  unfoldable pub client_id : BaseTransaction
  client_id = append_command self RequestType.client_id []

  unfoldable pub incr : String → BaseTransaction
  incr key = append_command self RequestType.incr (key ∷ [])

  unfoldable pub incrby : String → ℤ → BaseTransaction
  incrby key amount = append_command self RequestType.incr_by (key ∷ str amount ∷ [])

  unfoldable pub ping : Option String → BaseTransaction
  ping message = append_command self RequestType.ping (ping_args message)

  unfoldable pub decr : String → BaseTransaction
  decr key = append_command self RequestType.decr (key ∷ [])

  unfoldable pub decrby : String → ℤ → BaseTransaction
  decrby key amount = append_command self RequestType.decr_by (key ∷ str amount ∷ [])

  unfoldable pub client_getname : BaseTransaction
  client_getname = append_command self RequestType.client_get_name []

  unfoldable pub select : ℤ → BaseTransaction
  select index = append_command self RequestType.select (str index ∷ [])

unfoldable pub incrbyfloat :
    {F : Type 0} → (F → String) → BaseTransaction → String → F → BaseTransaction
incrbyfloat str_float self key amount =
    append_command self RequestType.incr_by_float (key ∷ str_float amount ∷ [])
