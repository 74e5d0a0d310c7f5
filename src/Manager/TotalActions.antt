-- ===== src/Manager/TotalActions.antt =====
-- The end of linking and stopping in utils/cluster_manager.py, under a steady clock.
use Prim.Native.String.{◌++◌ as ◌<>◌}
use glide_for_redis.Common.{ℕ, zero, suc, Bool, Option, String, List, [], ◌∷◌, arith}
use glide_for_redis.Manager.System.{Os, seconds, tell}
use glide_for_redis.Manager.Ends.{SteadyClock}
use glide_for_redis.Manager.Ends.Automatic.{
  IsTotal, tell-IsTotal, when-IsTotal, try-IsTotal, >>=-IsTotal, >>-IsTotal,
}
use glide_for_redis.Manager.Total.{
  total, run-IsTotal, wait_for_message-IsTotal, wait_for_server_shutdown-IsTotal,
}
use glide_for_redis.Manager.Waiting.{Paths, RedisServer}
use glide_for_redis.Manager.Servers.{remove_folder}
use glide_for_redis.Manager.Linking.{
  wait_in, wait_for_a_message_in_redis_logs, wait_for_view, wait_for_views,
  wait_for_all_topology_views, create_cluster, replicate, create_standalone_replication,
}
use glide_for_redis.Manager.Stopping.{
  try_stop, stop_loop, stop_server, stop_entries, init_logger, stop_cluster, folders_with_prefix,
  stop_all, stop_clusters,
}

module _ {W : Type 0} {os : Os W} (clock : SteadyClock os) where
  pub sleep-IsTotal : (d : ℕ) → IsTotal clock (tell (os.sleep d))
  sleep-IsTotal d = tell-IsTotal clock _ (λ w. omega (arith, clock.sleep d w))

  wait_in-IsTotal :
      (message : String) (server_ports : Option (List String)) (dirs : List String)
      → IsTotal clock (wait_in os message server_ports dirs)
  unfolding wait_in
  wait_in-IsTotal message server_ports [] = search total
  wait_in-IsTotal message server_ports (dir ∷ dirs) =
      let rest = wait_in-IsTotal message server_ports dirs in
      >>=-IsTotal clock _ _ (search (total, clock.is_dir)) (λ folder.
        when-IsTotal clock _ _ _
          (when-IsTotal clock _ _ _ rest (
            >>=-IsTotal clock _ _
              (wait_for_message-IsTotal clock (dir <> "/redis.log") message (seconds 10))
              (λ found. when-IsTotal clock _ _ _ rest (search total))))
          rest)

  pub wait_for_a_message-IsTotal :
      (cluster_folder message : String) (server_ports : Option (List String))
      → IsTotal clock (wait_for_a_message_in_redis_logs os cluster_folder message server_ports)
  unfolding wait_for_a_message_in_redis_logs
  wait_for_a_message-IsTotal cluster_folder message server_ports =
      search (total, clock.rglob, wait_in-IsTotal) depth 14

  wait_for_view-IsTotal :
      (paths : Paths) (nodes : ℕ) (server : RedisServer) (use_tls : Bool) (tries : ℕ)
      → IsTotal clock (wait_for_view os paths nodes server use_tls tries)
  unfolding wait_for_view
  wait_for_view-IsTotal paths nodes server use_tls zero = search total
  wait_for_view-IsTotal paths nodes server use_tls (suc tries) =
      let rest = wait_for_view-IsTotal paths nodes server use_tls tries in
      >>=-IsTotal clock _ _ (search (total, run-IsTotal) depth 14) (λ ready.
        when-IsTotal clock _ _ _ (search total) (>>-IsTotal clock _ _ (sleep-IsTotal 500000) rest))

  wait_for_views-IsTotal :
      (paths : Paths) (nodes : ℕ) (use_tls : Bool) (servers : List RedisServer)
      → IsTotal clock (wait_for_views os paths nodes use_tls servers)
  unfolding wait_for_views
  wait_for_views-IsTotal paths nodes use_tls [] = search total
  wait_for_views-IsTotal paths nodes use_tls (server ∷ servers) =
      let rest = wait_for_views-IsTotal paths nodes use_tls servers in
      >>-IsTotal clock _ _ (search wait_for_view-IsTotal) rest

  pub create_cluster-IsTotal :
      (paths : Paths) (servers : List RedisServer) (replica_count : ℕ) (cluster_folder : String)
      (use_tls : Bool)
      → IsTotal clock (create_cluster os paths servers replica_count cluster_folder use_tls)
  unfolding create_cluster wait_for_all_topology_views
  create_cluster-IsTotal paths servers replica_count cluster_folder use_tls =
      search (total, run-IsTotal, wait_for_a_message-IsTotal, wait_for_views-IsTotal) depth 14

  replicate-IsTotal :
      (paths : Paths) (primary : RedisServer) (use_tls : Bool) (servers : List RedisServer)
      → IsTotal clock (replicate os paths primary use_tls servers)
  unfolding replicate
  replicate-IsTotal paths primary use_tls [] = search total
  replicate-IsTotal paths primary use_tls (server ∷ servers) =
      let rest = replicate-IsTotal paths primary use_tls servers in
      >>=-IsTotal clock _ _ (search run-IsTotal) (λ _. when-IsTotal clock _ _ _ rest (search total))

  pub create_standalone_replication-IsTotal :
      (paths : Paths) (servers : List RedisServer) (cluster_folder : String) (use_tls : Bool)
      → IsTotal clock (create_standalone_replication os paths servers cluster_folder use_tls)
  unfolding create_standalone_replication
  create_standalone_replication-IsTotal paths [] cluster_folder use_tls = search total
  create_standalone_replication-IsTotal paths (primary ∷ servers) cluster_folder use_tls =
      search (total, replicate-IsTotal, wait_for_a_message-IsTotal)

  stop_loop-IsTotal :
      (paths : Paths) (server : RedisServer) (use_tls : Bool) (auth : Option String) (tries : ℕ)
      → IsTotal clock (stop_loop os paths server use_tls auth tries)
  unfolding stop_loop try_stop
  stop_loop-IsTotal paths server use_tls auth zero = search total
  stop_loop-IsTotal paths server use_tls auth (suc tries) =
      try-IsTotal clock _ _ _
        (search (total, run-IsTotal, wait_for_server_shutdown-IsTotal) depth 14)
        (λ e. stop_loop-IsTotal paths server use_tls auth tries)

  stop_entries-IsTotal :
      (paths : Paths) (host : String) (use_tls : Bool) (auth : Option String)
      (entries : List (String × Bool))
      → IsTotal clock (stop_entries os paths host use_tls auth entries)
  unfolding stop_entries stop_server
  stop_entries-IsTotal paths host use_tls auth [] = search total
  stop_entries-IsTotal paths host use_tls auth ((name, folder) ∷ entries) =
      let rest = stop_entries-IsTotal paths host use_tls auth entries in
      when-IsTotal clock _ _ _ (>>-IsTotal clock _ _ (search stop_loop-IsTotal) rest) rest

  pub init_logger-IsTotal : (logfile : String) → IsTotal clock (init_logger os logfile)
  unfolding init_logger
  init_logger-IsTotal logfile = search (total, clock.print, clock.open_log)

  pub remove_folder-IsTotal : (folder : String) → IsTotal clock (remove_folder os folder)
  unfolding remove_folder
  remove_folder-IsTotal folder = search (total, run-IsTotal, clock.returncode) depth 14

  stop_all-IsTotal :
      (paths : Paths) (host : String) (use_tls : Bool) (auth logfile : Option String)
      (keep_folder : Bool) (folders : List String)
      → IsTotal clock (stop_all os paths host use_tls auth logfile keep_folder folders)
  unfolding stop_all stop_cluster
  stop_all-IsTotal paths host use_tls auth logfile keep_folder [] = search total
  stop_all-IsTotal paths host use_tls auth logfile keep_folder (folder ∷ folders) =
      let rest = stop_all-IsTotal paths host use_tls auth logfile keep_folder folders in
      >>-IsTotal clock _ _
        (search
          (total, init_logger-IsTotal, clock.scandir, stop_entries-IsTotal, remove_folder-IsTotal)
          depth 14)
        rest

  folders_with_prefix-IsTotal :
      (folder_path : String) (prefix : Option String) (names : List String)
      → IsTotal clock (folders_with_prefix os folder_path prefix names)
  unfolding folders_with_prefix
  folders_with_prefix-IsTotal folder_path prefix [] = search total
  folders_with_prefix-IsTotal folder_path prefix (name ∷ names) =
      let rest = folders_with_prefix-IsTotal folder_path prefix names in
      >>=-IsTotal clock _ _ (search (total, clock.is_dir)) (λ folder.
        when-IsTotal clock _ _ _
          (>>=-IsTotal clock _ _ (search (total, clock.abspath))
            (λ found. >>=-IsTotal clock _ _ rest (λ more. search total)))
          rest)

  pub stop_clusters-IsTotal :
      (paths : Paths) (host folder_path : String) (prefix cluster_folder : Option String)
      (use_tls : Bool) (auth logfile : Option String) (keep_folder : Bool)
      → IsTotal clock (
          stop_clusters os paths host folder_path prefix cluster_folder use_tls auth logfile
            keep_folder)
  unfolding stop_clusters
  stop_clusters-IsTotal paths host folder_path prefix cluster_folder use_tls auth logfile
        keep_folder =
      search (total, clock.listdir, folders_with_prefix-IsTotal, stop_all-IsTotal) depth 14
