-- ===== src/Manager/Termination.antt =====
-- The end of the script of utils/cluster_manager.py, under a steady clock.
use glide_for_redis.Common.{ℕ, ◌≤◌, ◌≡◌, ◌≢◌, some, String, List}
use glide_for_redis.Manager.System.{Os, out_of_rounds}
use glide_for_redis.Manager.Ends.{SteadyClock, Ends-NotStuck, weaken-Ends}
use glide_for_redis.Manager.Ends.Automatic.{IsTotal, when-IsTotal}
use glide_for_redis.Manager.Total.{total}
use glide_for_redis.Manager.TotalActions.{
  create_cluster-IsTotal, create_standalone_replication-IsTotal, init_logger-IsTotal,
  stop_clusters-IsTotal,
}
use glide_for_redis.Manager.TotalServers.{create_cluster_folder-IsTotal}
use glide_for_redis.Manager.Counting.{PopsOne, create_servers_lem}
use glide_for_redis.Manager.Waiting.{Paths}
use glide_for_redis.Manager.Servers.{Setup, SetPop, create_servers}
use glide_for_redis.Manager.Main.{
  Args, StartArgs, StopArgs, ToolAction, start, stop, no_action, nodes, shards, start_servers,
  stop_servers, perform, main,
}

-- To start, the ports are given, and the loop over the servers may take a round for each.
abbrev pub IsBounded : ℕ → ToolAction → Type 0
IsBounded rounds (start a) = ((ports : List ℕ) × (a.ports ≡ some ports)) × (nodes a ≤ rounds)
IsBounded rounds (stop a) = Unit {0}
IsBounded rounds no_action = Unit {0}

module _ {W : Type 0} {os : Os W} (clock : SteadyClock os) {set_pop : SetPop W}
    (pops : PopsOne clock set_pop) (paths : Paths) (letters : List String) (lower : String → String)
    (rounds : ℕ) where
  create_servers-IsTotal :
      (s : Setup) (a : StartArgs)
      → IsBounded rounds (start a)
      → IsTotal clock (create_servers os set_pop s (shards a) a.replica_count a.ports rounds)
  create_servers-IsTotal s a ((ports, given), enough) = rw given (record {
    ends = λ w.
        weaken-Ends clock _ w
          (create_servers_lem clock pops s (shards a) a.replica_count ports rounds w enough)
          (λ servers w' _. tt);
  })

  start_servers-IsTotal :
      (args : Args) (a : StartArgs)
      → IsBounded rounds (start a)
      → IsTotal clock (start_servers os set_pop paths letters lower rounds args a)
  unfolding start_servers
  start_servers-IsTotal args a bounded =
      let servers = λ (s : Setup). create_servers-IsTotal s a bounded in
      search
        (
          total, servers, clock.print, create_cluster_folder-IsTotal, init_logger-IsTotal,
          create_cluster-IsTotal, create_standalone_replication-IsTotal,
        )
        depth 20

  stop_servers-IsTotal :
      (args : Args) (a : StopArgs)
      → IsTotal clock (stop_servers os set_pop paths letters lower rounds args a)
  unfolding stop_servers
  stop_servers-IsTotal args a = search (total, stop_clusters-IsTotal)

  perform-IsTotal :
      (args : Args) (action : ToolAction)
      → IsBounded rounds action
      → IsTotal clock (perform os set_pop paths letters lower rounds args action)
  unfolding perform
  perform-IsTotal args (start a) bounded = start_servers-IsTotal args a bounded
  perform-IsTotal args (stop a) bounded = stop_servers-IsTotal args a
  perform-IsTotal args no_action bounded = search total

  main-IsTotal :
      (args : Args) (action : ToolAction)
      → IsBounded rounds action
      → IsTotal clock (main os set_pop paths letters lower rounds args action)
  unfolding main
  main-IsTotal args action bounded =
      when-IsTotal clock _ _ _ (perform-IsTotal args action bounded) (search total)

  -- The script ends, with its work done or an exception, whatever the servers and the system do,
  -- when the clock is steady and, to start servers, their ports are given: no loop runs for ever.
  pub main_ends :
      (args : Args) (action : ToolAction) (w : W)
      → IsBounded rounds action
      → (main os set_pop paths letters lower rounds args action w).0 ≢ out_of_rounds
  main_ends args action w bounded = Ends-NotStuck clock ((main-IsTotal args action bounded).ends w)
