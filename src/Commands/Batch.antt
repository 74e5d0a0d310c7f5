-- ===== src/Commands/Batch.antt =====
-- `BaseTransaction` of python/python/glide/async_commands/transaction.py: its state. Its lock is held
-- only inside `append_command` and `clear`, which do not await, so that each of them is one step.
use glide_for_redis.Common.{String, List, [], ◌∷◌, ◌++◌}
use glide_for_redis.Protocol.{RequestType, Command}

pub record BaseTransaction : Type 0 where
  pub commands : List Command

abbrev pub new_transaction : BaseTransaction
new_transaction = record { commands = [] }

unfoldable pub append_command : BaseTransaction → RequestType → List String → BaseTransaction
append_command self request_type args =
    let command : Command = record { request_type = request_type; args_array = args } in
    record self { commands = self.commands ++ command ∷ [] }

unfoldable pub clear : BaseTransaction → BaseTransaction
clear self = record self { commands = [] }
