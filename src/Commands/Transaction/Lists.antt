-- ===== src/Commands/Transaction/Lists.antt =====
-- The methods of `BaseTransaction` on lists, keys and their expiry.
use glide_for_redis.Common.{Option, none, some, String, List, [], ◌∷◌, ◌++◌}
use glide_for_redis.Common.Text.{ℤ, str}
use glide_for_redis.Protocol.{RequestType}
use glide_for_redis.Commands.Options.{ExpireOptions}
use glide_for_redis.Commands.Core.{expire_args}
use glide_for_redis.Commands.Batch.{BaseTransaction, append_command}

-- `[key] if count is None else [key, str(count)]`
abbrev pub pop_args : String → Option ℤ → List String
pop_args key none = key ∷ []
pop_args key (some count) = key ∷ str count ∷ []

module _ (self : BaseTransaction) where
  unfoldable pub lpush : String → List String → BaseTransaction
  lpush key elements = append_command self RequestType.lpush ((key ∷ []) ++ elements)

  unfoldable pub lpop : String → Option ℤ → BaseTransaction
  lpop key count = append_command self RequestType.lpop (pop_args key count)

  unfoldable pub lrange : String → ℤ → ℤ → BaseTransaction
  lrange key start end = append_command self RequestType.lrange (key ∷ str start ∷ str end ∷ [])

  unfoldable pub rpush : String → List String → BaseTransaction
  rpush key elements = append_command self RequestType.rpush ((key ∷ []) ++ elements)

  unfoldable pub rpop : String → Option ℤ → BaseTransaction
  rpop key count = append_command self RequestType.rpop (pop_args key count)

  unfoldable pub ltrim : String → ℤ → ℤ → BaseTransaction
  ltrim key start end = append_command self RequestType.ltrim (key ∷ str start ∷ str end ∷ [])

  unfoldable pub lrem : String → ℤ → String → BaseTransaction
  lrem key count element = append_command self RequestType.lrem (key ∷ str count ∷ element ∷ [])

  unfoldable pub llen : String → BaseTransaction
  llen key = append_command self RequestType.llen (key ∷ [])

  unfoldable pub exists : List String → BaseTransaction
  exists keys = append_command self RequestType.exists keys

  unfoldable pub unlink : List String → BaseTransaction
  unlink keys = append_command self RequestType.unlink keys

  unfoldable pub expire : String → ℤ → Option ExpireOptions → BaseTransaction
  expire key seconds option =
      append_command self RequestType.expire (expire_args key seconds option)

  unfoldable pub expireat : String → ℤ → Option ExpireOptions → BaseTransaction
  expireat key unix_seconds option =
      append_command self RequestType.expire_at (expire_args key unix_seconds option)

  unfoldable pub pexpire : String → ℤ → Option ExpireOptions → BaseTransaction
  pexpire key milliseconds option =
      append_command self RequestType.pexpire (expire_args key milliseconds option)

  unfoldable pub pexpireat : String → ℤ → Option ExpireOptions → BaseTransaction
  pexpireat key unix_milliseconds option =
      append_command self RequestType.pexpire_at (expire_args key unix_milliseconds option)

  unfoldable pub ttl : String → BaseTransaction
  ttl key = append_command self RequestType.ttl (key ∷ [])
