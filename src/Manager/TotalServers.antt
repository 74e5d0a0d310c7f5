-- ===== src/Manager/TotalServers.antt =====
-- The end of starting a server in utils/cluster_manager.py, under a steady clock.
use glide_for_redis.Common.{ℕ, zero, suc, Option, none, some, String, List, [], ◌∷◌}
use glide_for_redis.Manager.System.{Os}
use glide_for_redis.Manager.Ends.{SteadyClock}
use glide_for_redis.Manager.Ends.Automatic.{IsTotal, >>=-IsTotal}
use glide_for_redis.Manager.Total.{
  total, run-IsTotal, should_generate_new_tls_certs-IsTotal, next_free_port-IsTotal,
}
use glide_for_redis.Manager.Waiting.{Paths}
use glide_for_redis.Manager.Certificates.{finish, make_key, generate_tls_certs}
use glide_for_redis.Manager.Servers.{
  Setup, get_random_string, create_cluster_folder, port_or_free, port_at, start_redis_server,
  tls_args_of,
}

module _ {W : Type 0} {os : Os W} (clock : SteadyClock os) where
  finish-IsTotal : (p : ℕ) (message : String) → IsTotal clock (finish os p message)
  unfolding finish
  finish-IsTotal p message = search (total, clock.communicate, clock.returncode) depth 14

  make_key-IsTotal : (name : String) (size : ℕ) → IsTotal clock (make_key os name size)
  unfolding make_key
  make_key-IsTotal name size = search (total, clock.popen, finish-IsTotal) depth 14

  generate_tls_certs-IsTotal : (paths : Paths) → IsTotal clock (generate_tls_certs os paths)
  unfolding generate_tls_certs
  generate_tls_certs-IsTotal paths =
      search (total, clock.write_text, clock.popen, finish-IsTotal, make_key-IsTotal) depth 20

  pub tls_args_of-IsTotal :
      (s : Setup) (replica_count : ℕ) → IsTotal clock (tls_args_of os s replica_count)
  unfolding tls_args_of
  tls_args_of-IsTotal s replica_count =
      search (total, should_generate_new_tls_certs-IsTotal, generate_tls_certs-IsTotal) depth 14

  get_random_string-IsTotal :
      (letters : List String) (n : ℕ) → IsTotal clock (get_random_string os letters n)
  unfolding get_random_string
  get_random_string-IsTotal letters zero = search total
  get_random_string-IsTotal letters (suc n) =
      let rest = get_random_string-IsTotal letters n in
      >>=-IsTotal clock _ _ (search (total, clock.choice))
        (λ c. >>=-IsTotal clock _ _ rest (λ s. search total))

  pub create_cluster_folder-IsTotal :
      (letters : List String) (path prefix : String)
      → IsTotal clock (create_cluster_folder os letters path prefix)
  unfolding create_cluster_folder
  create_cluster_folder-IsTotal letters path prefix =
      search (total, clock.time_str, clock.mkdir_exist_ok, get_random_string-IsTotal) depth 14

  port_or_free-IsTotal : (port : Option ℕ) → IsTotal clock (port_or_free os port)
  unfolding port_or_free
  port_or_free-IsTotal none = search next_free_port-IsTotal
  port_or_free-IsTotal (some port) = search (total, next_free_port-IsTotal)

  pub port_at-IsTotal : (ports : Option (List ℕ)) (i : ℕ) → IsTotal clock (port_at os ports i)
  unfolding port_at
  port_at-IsTotal none i = search total
  port_at-IsTotal (some []) i = search total
  port_at-IsTotal (some (p ∷ ps)) i = search total depth 14

  pub start_redis_server-IsTotal :
      (s : Setup) (tls_args : List String) (port : Option ℕ)
      → IsTotal clock (start_redis_server os s tls_args port)
  unfolding start_redis_server
  start_redis_server-IsTotal s tls_args port =
      search (total, clock.mkdir_exist_ok, clock.returncode, run-IsTotal, port_or_free-IsTotal)
        depth 14
