-- ===== src/Manager/Waiting.antt =====
-- The waiting loops of utils/cluster_manager.py, what they run, and the certificates.
use Prim.Native.String.{◌++◌ as ◌<>◌}
use text.Mathlib.Text.{◌==◌ as ◌=$=◌}
use glide_for_redis.Common.{
  ℕ, ◌+◌, ◌-◌, ◌*◌, Bool, true, false, ◌&&◌, Option, none, some, String, List, [], ◌∷◌, ◌++◌, ltb,
  ◌==◌, if◌then◌else◌,
}
use glide_for_redis.Common.Text.{ℤ, pos, negsuc, is_zero, str}
use glide_for_redis.Manager.System.{
  when◌then◌else◌, on_option, file_exists, exception, Action, pure, throw, ask, tell, ◌>>=◌, ◌>>◌,
  try_except, is_timeout, is_os_error, Os, seconds, poll, within, again, done,
}
use glide_for_redis.Manager.Text.{contains, strip}

pub record RedisServer : Type 0 where
  pub host : String
  pub port : ℕ

-- `str(server)`
abbrev pub server_text : RedisServer → String
server_text s = s.host <> (":" <> str (pos s.port))

-- `TLS_FOLDER`, which the environment gives, and the files in it.
pub record Paths : Type 0 where
  pub tls_folder : String

abbrev pub ca_crt : Paths → String
ca_crt paths = paths.tls_folder <> "/ca.crt"

abbrev pub redis_crt : Paths → String
redis_crt paths = paths.tls_folder <> "/redis.crt"

abbrev pub redis_key : Paths → String
redis_key paths = paths.tls_folder <> "/redis.key"

-- `auth` counts if it is given and not empty.
abbrev pub auth_args : Option String → List String
auth_args none = []
auth_args (some auth) = if auth =$= "" then [] else "-a" ∷ auth ∷ []

unfoldable pub get_redis_cli_option_args : Paths → Bool → Option String → List String
get_redis_cli_option_args paths use_tls auth =
    (if use_tls
      then "--tls"
        ∷ "--cert"
        ∷ redis_crt paths
        ∷ "--key"
        ∷ redis_key paths
        ∷ "--cacert"
        ∷ ca_crt paths
        ∷ []
      else [])
    ++ auth_args auth

abbrev pub cli_args : Paths → RedisServer → Bool → Option String → List String → List String
cli_args paths server use_tls auth rest =
    "redis-cli"
    ∷ "-h"
    ∷ server.host
    ∷ "-p"
    ∷ str (pos server.port)
    ∷ (get_redis_cli_option_args paths use_tls auth ++ rest)

module _ {W : Type 0} (os : Os W) where
  -- `Popen(args)`, then `communicate(timeout=timeout)`: the process and what it wrote.
  unfoldable pub run : List String → ℕ → Action W (ℕ × (String × String))
  run args timeout = do
    p ← ask (os.popen args none)
    outputs ← ask (os.communicate p timeout)
    pure (p, outputs)

  unfoldable pub check_if_tls_cert_exist : String → ℕ → Action W Bool
  check_if_tls_cert_exist tls_file timeout = do
    found ← poll os timeout (do
      there ← tell (os.path_exists tls_file)
      when there then pure (done true) else (tell (os.sleep 5000) >> pure (again tt)))
    on_option found (λ _. pure true) (pure false)

  -- `days < 3650`, of a number of days that may be negative.
  abbrev pub is_recent : ℤ → Bool
  is_recent (pos n) = ltb n 3650
  is_recent (negsuc n) = true

  unfoldable pub check_if_tls_cert_is_valid : String → Action W Bool
  check_if_tls_cert_is_valid tls_file = do
    days ← ask (os.days_since_modified tls_file)
    pure (is_recent days)

  -- The loop over the three files, which it leaves at the first that is there and valid.
  unfoldable pub any_valid : List String → Action W Bool
  any_valid [] = pure false
  any_valid (file ∷ files) = do
    there ← check_if_tls_cert_exist file (seconds 15)
    valid ← when there then check_if_tls_cert_is_valid file else pure false
    when valid then pure true else any_valid files

  unfoldable pub should_generate_new_tls_certs : Paths → Action W Bool
  should_generate_new_tls_certs paths =
      try_except (λ e. elim e [ file_exists ↦ true | _ ↦ false ])
        (ask (os.mkdir paths.tls_folder) >> pure true)
        (λ e. do
          found ← any_valid (ca_crt paths ∷ redis_key paths ∷ redis_crt paths ∷ [])
          pure (if found then false else true))

  unfoldable pub next_free_port : ℕ → ℕ → ℕ → Action W ℕ
  next_free_port min_port max_port timeout = do
    found ← poll os timeout (do
      port ← tell (os.randint min_port max_port)
      try_except is_os_error (ask (os.bind port) >> (tell os.close_socket >> pure (done port)))
          (λ e. do d ← tell (os.randint 0 9); tell (os.sleep (d * 100 + 10000)) >> pure (again tt)))
    on_option found (λ port. pure port) (throw (exception "Timeout Expired: No free port found"))

  -- `output.strip() == "PONG"` ends the loop; a timeout of the command counts as no answer.
  unfoldable pub wait_for_server : Paths → RedisServer → Bool → ℕ → Action W Bool
  wait_for_server paths server use_tls timeout = do
    up ← poll os timeout (do
      p ← ask (os.popen (cli_args paths server use_tls none ("PING" ∷ [])) none)
      pong ←
          try_except is_timeout
            (do outputs ← ask (os.communicate p (seconds 1)); pure (strip outputs.0 =$= "PONG"))
            (λ e. pure false)
      when pong then pure (done true) else (tell (os.sleep 100000) >> pure (again tt)))
    on_option up (λ _. pure true) (pure false)

  unfoldable pub wait_for_message : String → String → ℕ → Action W Bool
  wait_for_message log_file message timeout = do
    found ← poll os timeout (do
      redis_log ← ask (os.read_text log_file)
      when contains message redis_log
          then pure (done true)
          else (tell (os.sleep 100000) >> pure (again tt)))
    on_option found (λ _. pure true) (pure false)

  unfoldable pub is_address_already_in_use : String → ℕ → Action W Bool
  is_address_already_in_use log_file timeout = do
    verdict ← poll os timeout (do
      redis_log ← ask (os.read_text log_file)
      when contains "Address already in use" redis_log
          then pure (done true)
          else when contains "Ready" redis_log
          then pure (done false)
          else (tell (os.sleep 100000) >> pure (again tt)))
    on_option verdict (λ in_use. pure in_use) (pure false)

  -- Two answers with a return code in all end the loop.
  unfoldable pub wait_for_server_shutdown :
      Paths → RedisServer → Bool → Option String → ℕ → Action W Bool
  wait_for_server_shutdown paths server use_tls auth timeout = do
    down ←
        within os timeout
          (λ verify_times. do
            p ← ask (os.popen (cli_args paths server use_tls auth ("PING" ∷ [])) none)
            failed ←
                try_except is_timeout
                  (do
                    outputs ← ask (os.communicate p (seconds 1))
                    code ← tell (os.returncode p)
                    pure (if is_zero code then false else true))
                  (λ e. pure false)
            let left : ℕ = if failed then verify_times - 1 else verify_times
            when failed && (left == 0)
                then pure (done true)
                else (tell (os.sleep 100000) >> pure (again left)))
          2
    on_option down (λ _. pure true) (pure false)
