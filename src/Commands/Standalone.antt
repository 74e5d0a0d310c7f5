-- ===== src/Commands/Standalone.antt =====
-- `StandaloneCommands` of python/python/glide/async_commands/standalone_commands.py.
use glide_for_redis.Common.{Option, none, some, String, List, [], ◌∷◌, map}
use glide_for_redis.Common.Text.{ℤ, str}
use glide_for_redis.Protocol.{RequestType, Command}
use glide_for_redis.Routes.{Route}
use glide_for_redis.Commands.Batch.{BaseTransaction}
use glide_for_redis.Commands.Options.{InfoSection, info_section_value}
use glide_for_redis.Commands.Core.{extend_pairs}

-- `[section.value for section in sections] if sections else []`
abbrev pub info_args : Option (List InfoSection) → List String
info_args none = []
info_args (some sections) = map info_section_value sections

-- `[] if message is None else [message]`
abbrev pub ping_args : Option String → List String
ping_args none = []
ping_args (some message) = message ∷ []

module _ {R : Type 0} (execute_command : RequestType → List String → Option Route → R) where
  unfoldable pub custom_command : List String → R
  custom_command command_args = execute_command RequestType.custom_command command_args none

  unfoldable pub info : Option (List InfoSection) → R
  info sections = execute_command RequestType.info (info_args sections) none

  unfoldable pub select : ℤ → R
  select index = execute_command RequestType.select (str index ∷ []) none

  unfoldable pub config_resetstat : R
  config_resetstat = execute_command RequestType.config_reset_stat [] none

  unfoldable pub config_rewrite : R
  config_rewrite = execute_command RequestType.config_rewrite [] none

  unfoldable pub client_id : R
  client_id = execute_command RequestType.client_id [] none

  unfoldable pub ping : Option String → R
  ping message = execute_command RequestType.ping (ping_args message) none

  unfoldable pub config_get : List String → R
  config_get parameters = execute_command RequestType.config_get parameters none

  unfoldable pub config_set : List (String × String) → R
  config_set parameters_map =
      execute_command RequestType.config_set (extend_pairs [] parameters_map) none

  unfoldable pub client_getname : R
  client_getname = execute_command RequestType.client_get_name [] none

-- `commands = transaction.commands[:]`, sent as one request; `execute_transaction` is the client's.
unfoldable pub exec : {R : Type 0} → (List Command → Option Route → R) → BaseTransaction → R
exec execute_transaction transaction = execute_transaction transaction.commands none
