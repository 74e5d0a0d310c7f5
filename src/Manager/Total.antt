-- ===== src/Manager/Total.antt =====
-- The end of the waiting loops of utils/cluster_manager.py, under a steady clock.
use glide_for_redis.Common.{ℕ, ◌+◌, ◌*◌, ltb, ◌≡◌, Bool, true, Option, String, List, [], ◌∷◌, arith}
use glide_for_redis.Manager.System.{Os, seconds}
use glide_for_redis.Manager.Ends.{SteadyClock}
use glide_for_redis.Manager.Ends.Automatic.{
  IsTotal, IsRound, pure-IsTotal, throw-IsTotal, tell-IsTotal, ask-IsTotal, when-IsTotal,
  try-IsTotal, poll-IsTotal, >>=-IsTotal, >>-IsTotal, done-IsRound, sleep-IsRound, when-IsRound,
  try-IsRound, >>=-IsRound, >>-IsRound, within-IsTotal, option-IsTotal,
}
use glide_for_redis.Manager.Waiting.{
  Paths, RedisServer, run, check_if_tls_cert_exist, check_if_tls_cert_is_valid, any_valid,
  should_generate_new_tls_certs, next_free_port, wait_for_server, wait_for_message,
  is_address_already_in_use, wait_for_server_shutdown,
}

pub ruleset total = (
  pure-IsTotal, throw-IsTotal, tell-IsTotal, ask-IsTotal, when-IsTotal, try-IsTotal, poll-IsTotal,
  >>=-IsTotal, >>-IsTotal, done-IsRound, sleep-IsRound, when-IsRound, try-IsRound, >>=-IsRound,
  >>-IsRound, within-IsTotal, option-IsTotal,
)

pause : (d : ℕ) → ltb 0 (d * 100 + 10000) ≡ true
pause d = ground arith

module _ {W : Type 0} {os : Os W} (clock : SteadyClock os) where
  pub run-IsTotal : (args : List String) (timeout : ℕ) → IsTotal clock (run os args timeout)
  unfolding run
  run-IsTotal args timeout = search (total, clock.popen, clock.communicate) depth 12

  pub wait_for_message-IsTotal :
      (log_file message : String) (timeout : ℕ)
      → IsTotal clock (wait_for_message os log_file message timeout)
  unfolding wait_for_message
  wait_for_message-IsTotal log_file message timeout = search (total, clock.read_text) depth 14

  pub check_if_tls_cert_exist-IsTotal :
      (tls_file : String) (timeout : ℕ)
      → IsTotal clock (check_if_tls_cert_exist os tls_file timeout)
  unfolding check_if_tls_cert_exist
  check_if_tls_cert_exist-IsTotal tls_file timeout = search (total, clock.path_exists) depth 14

  pub any_valid-IsTotal : (files : List String) → IsTotal clock (any_valid os files)
  unfolding any_valid check_if_tls_cert_is_valid
  any_valid-IsTotal [] = search total
  any_valid-IsTotal (file ∷ files) =
      >>=-IsTotal clock _ _ (check_if_tls_cert_exist-IsTotal file (seconds 15)) (λ there.
        >>=-IsTotal clock _ _ (search (total, clock.days_since_modified))
          (λ valid. when-IsTotal clock _ _ _ (search total) (any_valid-IsTotal files)))

  pub should_generate_new_tls_certs-IsTotal :
      (paths : Paths) → IsTotal clock (should_generate_new_tls_certs os paths)
  unfolding should_generate_new_tls_certs
  should_generate_new_tls_certs-IsTotal paths =
      search (total, clock.mkdir, any_valid-IsTotal) depth 14

  pub next_free_port-IsTotal :
      (min_port max_port timeout : ℕ) → IsTotal clock (next_free_port os min_port max_port timeout)
  unfolding next_free_port
  next_free_port-IsTotal min_port max_port timeout =
      search (total, clock.randint, clock.bind, clock.close_socket, pause) depth 14

  pub wait_for_server-IsTotal :
      (paths : Paths) (server : RedisServer) (use_tls : Bool) (timeout : ℕ)
      → IsTotal clock (wait_for_server os paths server use_tls timeout)
  unfolding wait_for_server
  wait_for_server-IsTotal paths server use_tls timeout =
      search (total, clock.popen, clock.communicate) depth 14

  pub is_address_already_in_use-IsTotal :
      (log_file : String) (timeout : ℕ)
      → IsTotal clock (is_address_already_in_use os log_file timeout)
  unfolding is_address_already_in_use
  is_address_already_in_use-IsTotal log_file timeout = search (total, clock.read_text) depth 14

  pub wait_for_server_shutdown-IsTotal :
      (paths : Paths) (server : RedisServer) (use_tls : Bool) (auth : Option String) (timeout : ℕ)
      → IsTotal clock (wait_for_server_shutdown os paths server use_tls auth timeout)
  unfolding wait_for_server_shutdown
  wait_for_server_shutdown-IsTotal paths server use_tls auth timeout =
      search (total, clock.popen, clock.communicate, clock.returncode) depth 16
