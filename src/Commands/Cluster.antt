-- ===== src/Commands/Cluster.antt =====
-- `ClusterCommands` of python/python/glide/async_commands/cluster_commands.py: the methods of the
-- standalone client, each with a route.
use glide_for_redis.Common.{Option, String, List, []}
use glide_for_redis.Protocol.{RequestType, Command}
use glide_for_redis.Routes.{Route}
use glide_for_redis.Commands.Batch.{BaseTransaction}
use glide_for_redis.Commands.Options.{InfoSection}
use glide_for_redis.Commands.Core.{extend_pairs}
use glide_for_redis.Commands.Standalone.{info_args, ping_args}

module _ {R : Type 0} (execute_command : RequestType → List String → Option Route → R) where
  unfoldable pub custom_command : List String → Option Route → R
  custom_command command_args route = execute_command RequestType.custom_command command_args route

  unfoldable pub info : Option (List InfoSection) → Option Route → R
  info sections route = execute_command RequestType.info (info_args sections) route

  unfoldable pub config_resetstat : Option Route → R
  config_resetstat route = execute_command RequestType.config_reset_stat [] route

  unfoldable pub config_rewrite : Option Route → R
  config_rewrite route = execute_command RequestType.config_rewrite [] route

  unfoldable pub client_id : Option Route → R
  client_id route = execute_command RequestType.client_id [] route

  unfoldable pub ping : Option String → Option Route → R
  ping message route = execute_command RequestType.ping (ping_args message) route

  unfoldable pub config_get : List String → Option Route → R
  config_get parameters route = execute_command RequestType.config_get parameters route

  unfoldable pub config_set : List (String × String) → Option Route → R
  config_set parameters_map route =
      execute_command RequestType.config_set (extend_pairs [] parameters_map) route

  unfoldable pub client_getname : Option Route → R
  client_getname route = execute_command RequestType.client_get_name [] route

-- `commands = transaction.commands[:]`, sent as one request; `execute_transaction` is the client's.
unfoldable pub exec :
    {R : Type 0} → (List Command → Option Route → R) → BaseTransaction → Option Route → R
exec execute_transaction transaction route = execute_transaction transaction.commands route
