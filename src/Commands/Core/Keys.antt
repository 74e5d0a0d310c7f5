-- ===== src/Commands/Core/Keys.antt =====
-- The methods of `CoreCommands` on keys and their expiry.
use glide_for_redis.Common.{Option, none, some, String, List, [], ◌∷◌}
use glide_for_redis.Common.Text.{ℤ, str}
use glide_for_redis.Protocol.{RequestType}
use glide_for_redis.Routes.{Route}
use glide_for_redis.Commands.Options.{ExpireOptions, expire_option_value}

-- `[key, str(n)] if option is None else [key, str(n), option.value]`
abbrev pub expire_args : String → ℤ → Option ExpireOptions → List String
expire_args key n none = key ∷ str n ∷ []
expire_args key n (some option) = key ∷ str n ∷ expire_option_value option ∷ []

module _ {R : Type 0} (execute_command : RequestType → List String → Option Route → R) where
  unfoldable pub exists : List String → R
  exists keys = execute_command RequestType.exists keys none

  unfoldable pub unlink : List String → R
  unlink keys = execute_command RequestType.unlink keys none

  unfoldable pub expire : String → ℤ → Option ExpireOptions → R
  expire key seconds option =
      execute_command RequestType.expire (expire_args key seconds option) none

  unfoldable pub expireat : String → ℤ → Option ExpireOptions → R
  expireat key unix_seconds option =
      execute_command RequestType.expire_at (expire_args key unix_seconds option) none

  unfoldable pub pexpire : String → ℤ → Option ExpireOptions → R
  pexpire key milliseconds option =
      execute_command RequestType.pexpire (expire_args key milliseconds option) none

  unfoldable pub pexpireat : String → ℤ → Option ExpireOptions → R
  pexpireat key unix_milliseconds option =
      execute_command RequestType.pexpire_at (expire_args key unix_milliseconds option) none

  unfoldable pub ttl : String → R
  ttl key = execute_command RequestType.ttl (key ∷ []) none
