-- ===== src/Commands/Core/Lists.antt =====
-- The methods of `CoreCommands` on lists.
use glide_for_redis.Common.{Option, none, String, List, [], ◌∷◌, ◌++◌}
use glide_for_redis.Common.Text.{ℤ, str}
use glide_for_redis.Protocol.{RequestType}
use glide_for_redis.Routes.{Route}

module _ {R : Type 0} (execute_command : RequestType → List String → Option Route → R) where
  unfoldable pub lpush : String → List String → R
  lpush key elements = execute_command RequestType.lpush ((key ∷ []) ++ elements) none

  unfoldable pub lpop : String → R
  lpop key = execute_command RequestType.lpop (key ∷ []) none

  unfoldable pub lpop_count : String → ℤ → R
  lpop_count key count = execute_command RequestType.lpop (key ∷ str count ∷ []) none

  unfoldable pub lrange : String → ℤ → ℤ → R
  lrange key start end = execute_command RequestType.lrange (key ∷ str start ∷ str end ∷ []) none

  unfoldable pub rpush : String → List String → R
  rpush key elements = execute_command RequestType.rpush ((key ∷ []) ++ elements) none

  -- The method takes a count and does not read it.
  unfoldable pub rpop : String → Option ℤ → R
  rpop key count = execute_command RequestType.rpop (key ∷ []) none

  unfoldable pub rpop_count : String → ℤ → R
  rpop_count key count = execute_command RequestType.rpop (key ∷ str count ∷ []) none

  unfoldable pub ltrim : String → ℤ → ℤ → R
  ltrim key start end = execute_command RequestType.ltrim (key ∷ str start ∷ str end ∷ []) none

  unfoldable pub lrem : String → ℤ → String → R
  lrem key count element = execute_command RequestType.lrem (key ∷ str count ∷ element ∷ []) none

  unfoldable pub llen : String → R
  llen key = execute_command RequestType.llen (key ∷ []) none
