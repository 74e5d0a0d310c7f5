-- ===== src/Commands/Transaction/Hashes.antt =====
-- The methods of `BaseTransaction` on hashes and sets.
use glide_for_redis.Common.{String, List, [], ◌∷◌, ◌++◌}
use glide_for_redis.Common.Text.{ℤ, str}
use glide_for_redis.Protocol.{RequestType}
use glide_for_redis.Commands.Core.{extend_pairs}
use glide_for_redis.Commands.Batch.{BaseTransaction, append_command}

module _ (self : BaseTransaction) where
  unfoldable pub hset : String → List (String × String) → BaseTransaction
  hset key field_value_map =
      append_command self RequestType.hash_set (extend_pairs (key ∷ []) field_value_map)

  unfoldable pub hget : String → String → BaseTransaction
  hget key field = append_command self RequestType.hash_get (key ∷ field ∷ [])

  unfoldable pub hincrby : String → String → ℤ → BaseTransaction
  hincrby key field amount =
      append_command self RequestType.hash_incr_by (key ∷ field ∷ str amount ∷ [])

  unfoldable pub hexists : String → String → BaseTransaction
  hexists key field = append_command self RequestType.hash_exists (key ∷ field ∷ [])

  unfoldable pub hgetall : String → BaseTransaction
  hgetall key = append_command self RequestType.hash_get_all (key ∷ [])

  unfoldable pub hmget : String → List String → BaseTransaction
  hmget key fields = append_command self RequestType.hash_mget ((key ∷ []) ++ fields)

  unfoldable pub hdel : String → List String → BaseTransaction
  hdel key fields = append_command self RequestType.hash_del ((key ∷ []) ++ fields)

  unfoldable pub sadd : String → List String → BaseTransaction
  sadd key members = append_command self RequestType.sadd ((key ∷ []) ++ members)

  unfoldable pub srem : String → List String → BaseTransaction
  srem key members = append_command self RequestType.srem ((key ∷ []) ++ members)

  unfoldable pub smembers : String → BaseTransaction
  smembers key = append_command self RequestType.smembers (key ∷ [])

  unfoldable pub scard : String → BaseTransaction
  scard key = append_command self RequestType.scard (key ∷ [])

unfoldable pub hincrbyfloat :
    {F : Type 0} → (F → String) → BaseTransaction → String → String → F → BaseTransaction
hincrbyfloat str_float self key field amount =
    append_command self RequestType.hash_incr_by_float (key ∷ field ∷ str_float amount ∷ [])
