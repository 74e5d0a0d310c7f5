-- ===== src/Commands/Queueing.antt =====
-- A transaction sends what the calls would have sent one by one.
use glide_for_redis.Common.{
  ◌≡◌, refl, sym, ap, ◌∙◌, Option, none, String, List, [], ◌∷◌, ◌++◌, map, append-nil, append_assoc,
}
use glide_for_redis.Protocol.{RequestType, Command}
use glide_for_redis.Routes.{Route}
use glide_for_redis.Commands.Standalone
use glide_for_redis.Commands.Cluster
use glide_for_redis.Commands.Batch.{BaseTransaction, new_transaction, clear}
use glide_for_redis.Commands.Agreement.{
  ServerCall, Call, server, issue_server, issue_cluster, issue, queue, custom_command, get,
}

-- A command as the message that it becomes, without its route.
abbrev pub as_command : RequestType → List String → Option Route → Command
as_command request_type args route = record { request_type = request_type; args_array = args }

-- A cluster method with a route sends what the standalone method of the same name sends, to it.
pub issue_cluster-issue_server :
    {R : Type 0} (execute_command : RequestType → List String → Option Route → R) (c : ServerCall)
    (route : Option Route)
    → issue_cluster execute_command c route
      ≡ issue_server (λ request_type args _. execute_command request_type args route) c
unfolding issue_cluster issue_server
issue_cluster-issue_server execute_command (custom_command args) route = refl
issue_cluster-issue_server execute_command _ route = refl

module _ {F : Type 0} (str_float : F → String) where
  queue-issue :
      (self : BaseTransaction) (c : Call F)
      → (queue str_float self c).commands ≡ self.commands ++ issue str_float as_command c ∷ []
  unfolding queue issue
  queue-issue self (get key) = refl
  queue-issue self (server (custom_command args)) = refl
  queue-issue self (server _) = refl
  queue-issue self _ = refl

  -- The calls made on a transaction, one after the other.
  unfoldable pub queue_all : BaseTransaction → List (Call F) → BaseTransaction
  queue_all self [] = self
  queue_all self (c ∷ cs) = queue_all (queue str_float self c) cs

  queue_all-issue :
      (self : BaseTransaction) (cs : List (Call F))
      → (queue_all self cs).commands ≡ self.commands ++ map (issue str_float as_command) cs
  unfolding queue_all
  queue_all-issue self [] = sym (append-nil self.commands)
  queue_all-issue self (c ∷ cs) =
      queue_all-issue (queue str_float self c) cs
      ∙ ap (λ (l : List Command). l ++ map (issue str_float as_command) cs) (queue-issue self c)
      ∙ append_assoc self.commands _ _

  -- A transaction, new or cleared, on which any calls were made sends through `exec`, in one
  -- request and in the order of the calls, the commands that the client's methods of these names
  -- send one by one; the cluster client sends them to the route that it is given. `lpop` and `rpop`
  -- with a count stand against the client's `lpop_count` and `rpop_count`, since the client's own
  -- `rpop` does not read its count.
  pub exec-queue_all :
      {R : Type 0} (execute_transaction : List Command → Option Route → R) (old : BaseTransaction)
      (cs : List (Call F)) (route : Option Route)
      → (Standalone.exec execute_transaction (queue_all (clear old) cs)
          ≡ execute_transaction (map (issue str_float as_command) cs) none)
        × (Cluster.exec execute_transaction (queue_all new_transaction cs) route
            ≡ execute_transaction (map (issue str_float as_command) cs) route)
  unfolding Standalone.exec Cluster.exec clear
  exec-queue_all execute_transaction old cs route = (
    ap (λ (l : List Command). execute_transaction l none) (queue_all-issue (clear old) cs),
    ap (λ (l : List Command). execute_transaction l route) (queue_all-issue new_transaction cs),
  )
