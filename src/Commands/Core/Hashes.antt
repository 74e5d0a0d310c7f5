-- ===== src/Commands/Core/Hashes.antt =====
-- The methods of `CoreCommands` on hashes and sets.
use glide_for_redis.Common.{Option, none, String, List, [], ◌∷◌, ◌++◌}
use glide_for_redis.Common.Text.{ℤ, str}
use glide_for_redis.Protocol.{RequestType}
use glide_for_redis.Routes.{Route}
use glide_for_redis.Commands.Core.Strings.{extend_pairs}

module _ {R F : Type 0} (str_float : F → String)
    (execute_command : RequestType → List String → Option Route → R) where
  unfoldable pub hset : String → List (String × String) → R
  hset key field_value_map =
      execute_command RequestType.hash_set (extend_pairs (key ∷ []) field_value_map) none

  unfoldable pub hget : String → String → R
  hget key field = execute_command RequestType.hash_get (key ∷ field ∷ []) none

  unfoldable pub hincrby : String → String → ℤ → R
  hincrby key field amount =
      execute_command RequestType.hash_incr_by (key ∷ field ∷ str amount ∷ []) none

  unfoldable pub hincrbyfloat : String → String → F → R
  hincrbyfloat key field amount =
      execute_command RequestType.hash_incr_by_float (key ∷ field ∷ str_float amount ∷ []) none

  unfoldable pub hexists : String → String → R
  hexists key field = execute_command RequestType.hash_exists (key ∷ field ∷ []) none

  unfoldable pub hgetall : String → R
  hgetall key = execute_command RequestType.hash_get_all (key ∷ []) none

  unfoldable pub hmget : String → List String → R
  hmget key fields = execute_command RequestType.hash_mget ((key ∷ []) ++ fields) none

  unfoldable pub hdel : String → List String → R
  hdel key fields = execute_command RequestType.hash_del ((key ∷ []) ++ fields) none

  unfoldable pub sadd : String → List String → R
  sadd key members = execute_command RequestType.sadd ((key ∷ []) ++ members) none

  unfoldable pub srem : String → List String → R
  srem key members = execute_command RequestType.srem ((key ∷ []) ++ members) none

  unfoldable pub smembers : String → R
  smembers key = execute_command RequestType.smembers (key ∷ []) none

  unfoldable pub scard : String → R
  scard key = execute_command RequestType.scard (key ∷ []) none
