-- ===== src/Manager/Linking.antt =====
-- Making a cluster, or replicas, of servers that run, in utils/cluster_manager.py.
use Prim.Native.String.{◌++◌ as ◌<>◌}
use text.Mathlib.Text.{◌==◌ as ◌=$=◌}
use glide_for_redis.Common.{
  ℕ, zero, suc, Bool, true, false, ◌&&◌, ◌||◌, Option, none, some, String, List, [], ◌∷◌, ◌++◌, map,
  length, ◌==◌, if◌then◌else◌,
}
use glide_for_redis.Common.Text.{pos, str}
use glide_for_redis.Manager.System.{
  when◌then◌else◌, exception, Action, pure, throw, ask, tell, ◌>>=◌, ◌>>◌, try_except, is_timeout,
  Os, seconds,
}
use glide_for_redis.Manager.Text.{contains, count}
use glide_for_redis.Manager.Waiting.{
  RedisServer, server_text, Paths, get_redis_cli_option_args, cli_args, run, wait_for_message,
}

-- `x in xs`, of texts.
unfoldable pub is_in : String → List String → Bool
is_in x [] = false
is_in x (y ∷ ys) = (x =$= y) || is_in x ys

-- `server_ports and str(dir) not in server_ports`
abbrev pub is_skipped : Option (List String) → String → Bool
is_skipped none dir = false
is_skipped (some []) dir = false
is_skipped (some (p ∷ ps)) dir = if is_in dir (p ∷ ps) then false else true

module _ {W : Type 0} (os : Os W) where
  -- The loop over the paths below the folder.
  unfoldable pub wait_in : String → Option (List String) → List String → Action W (Unit {0})
  wait_in message server_ports [] = pure tt
  wait_in message server_ports (dir ∷ dirs) = do
    folder ← tell (os.is_dir dir)
    when folder
        then when is_skipped server_ports dir then wait_in message server_ports dirs else (do
          found ← wait_for_message os (dir <> "/redis.log") message (seconds 10)
          when found
              then wait_in message server_ports dirs
              else throw (
                  exception
                    "During the timeout duration, the server logs did not contain the message"))
        else wait_in message server_ports dirs

  unfoldable pub wait_for_a_message_in_redis_logs :
      String → String → Option (List String) → Action W (Unit {0})
  wait_for_a_message_in_redis_logs cluster_folder message server_ports = do
    dirs ← ask (os.rglob cluster_folder)
    wait_in message server_ports dirs

  -- `while retries >= 0`, for one server: `tries` is `retries + 1`.
  unfoldable pub wait_for_view : Paths → ℕ → RedisServer → Bool → ℕ → Action W (Unit {0})
  wait_for_view paths nodes server use_tls zero =
      throw (exception "Timeout exceeded trying to wait for server to know all hosts.")
  wait_for_view paths nodes server use_tls (suc tries) = do
    ready ←
        try_except is_timeout
          (do
            (p, (output, err)) ←
                run os (cli_args paths server use_tls none ("cluster" ∷ "slots" ∷ [])) (seconds 5)
            when err =$= ""
                then pure (count output server.host == nodes)
                else throw (exception "Failed to execute command"))
          (λ e. pure false)
    when ready
        then pure tt
        else (tell (os.sleep 500000) >> wait_for_view paths nodes server use_tls tries)

  unfoldable pub wait_for_views : Paths → ℕ → Bool → List RedisServer → Action W (Unit {0})
  wait_for_views paths nodes use_tls [] = pure tt
  wait_for_views paths nodes use_tls (server ∷ servers) =
      wait_for_view paths nodes server use_tls 61 >> wait_for_views paths nodes use_tls servers

  unfoldable pub wait_for_all_topology_views : Paths → List RedisServer → Bool → Action W (Unit {0})
  wait_for_all_topology_views paths servers use_tls =
      wait_for_views paths (length servers) use_tls servers

  unfoldable pub create_cluster : Paths → List RedisServer → ℕ → String → Bool → Action W (Unit {0})
  create_cluster paths servers replica_count cluster_folder use_tls = do
    (p, (output, err)) ←
        run os
          ("redis-cli"
            ∷ (get_redis_cli_option_args paths use_tls none
                ++ ("--cluster"
                    ∷ "create"
                    ∷ (map server_text servers
                        ++ "--cluster-replicas" ∷ str (pos replica_count) ∷ "--cluster-yes" ∷ []))))
          (seconds 20)
    when (err =$= "") && contains "[OK] All 16384 slots covered." output
        then pure tt
        else throw (exception "Failed to create cluster")
    wait_for_a_message_in_redis_logs cluster_folder "Cluster state changed: ok" none
    wait_for_all_topology_views paths servers use_tls

  -- The loop over the servers behind the first.
  unfoldable pub replicate : Paths → RedisServer → Bool → List RedisServer → Action W (Unit {0})
  replicate paths primary_server use_tls [] = pure tt
  replicate paths primary_server use_tls (server ∷ servers) = do
    (p, (output, err)) ←
        run os
          ("redis-cli"
            ∷ (get_redis_cli_option_args paths use_tls none
                ++ "-h"
                  ∷ server.host
                  ∷ "-p"
                  ∷ str (pos server.port)
                  ∷ "REPLICAOF"
                  ∷ primary_server.host
                  ∷ str (pos primary_server.port)
                  ∷ []))
          (seconds 20)
    when (err =$= "") && contains "OK" output
        then replicate paths primary_server use_tls servers
        else throw (exception "Failed to set up replication for server")

  -- Without servers, `servers[0]` raises.
  unfoldable pub create_standalone_replication :
      Paths → List RedisServer → String → Bool → Action W (Unit {0})
  create_standalone_replication paths [] cluster_folder use_tls =
      throw (exception "list index out of range")
  create_standalone_replication paths (primary_server ∷ servers) cluster_folder use_tls =
      replicate paths primary_server use_tls servers
      >> wait_for_a_message_in_redis_logs cluster_folder "sync: Finished with success"
          (some (map (λ server. str (pos server.port)) servers))
