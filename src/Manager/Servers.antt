-- ===== src/Manager/Servers.antt =====
-- Starting servers, in utils/cluster_manager.py.
use Prim.Native.String.{◌++◌ as ◌<>◌}
use glide_for_redis.Common.{
  ℕ, zero, suc, ◌+◌, ◌*◌, Bool, true, false, Option, none, some, String, List, [], ◌∷◌, ◌++◌,
  get_elem?, ltb, ◌==◌, if◌then◌else◌,
}
use glide_for_redis.Common.Text.{pos, is_zero, str}
use glide_for_redis.Manager.System.{
  when◌then◌else◌, on_option, exception, Action, pure, throw, stuck, ask, tell, ◌>>=◌, ◌>>◌, Os,
  seconds,
}
use glide_for_redis.Manager.Waiting.{
  RedisServer, Paths, ca_crt, redis_crt, redis_key, run, should_generate_new_tls_certs,
  next_free_port, wait_for_server, is_address_already_in_use,
}
use glide_for_redis.Manager.Certificates.{generate_tls_certs}

-- A server and its folder.
abbrev pub Started : Type 0
Started = RedisServer × String

abbrev pub module_args : List String → List String
module_args [] = []
module_args (path ∷ paths) = "--loadmodule" ∷ path ∷ module_args paths

-- `load_module` counts if it is given; an empty list adds nothing either way.
abbrev pub load_module_args : Option (List String) → List String
load_module_args none = []
load_module_args (some paths) = module_args paths

abbrev pub yes_no : Bool → String
yes_no true = "yes"
yes_no false = "no"

unfoldable pub server_args :
    ℕ → String → Bool → List String → Bool → Option (List String) → List String
server_args port node_folder tls tls_args cluster_mode load_module =
    "redis-server"
    ∷ (if tls then "--tls-port" else "--port")
    ∷ str (pos port)
    ∷ "--cluster-enabled"
    ∷ yes_no cluster_mode
    ∷ "--dir"
    ∷ node_folder
    ∷ "--daemonize"
    ∷ "yes"
    ∷ "--logfile"
    ∷ (node_folder <> "/redis.log")
    ∷ (load_module_args load_module ++ tls_args)

unfoldable pub tls_server_args : Paths → String → ℕ → List String
tls_server_args paths host replica_count =
    "--tls-cluster"
    ∷ "yes"
    ∷ "--tls-cert-file"
    ∷ redis_crt paths
    ∷ "--tls-key-file"
    ∷ redis_key paths
    ∷ "--tls-ca-cert-file"
    ∷ ca_crt paths
    ∷ "--tls-auth-clients"
    ∷ "no"
    ∷ "--bind"
    ∷ host
    ∷ "--port"
    ∷ "0"
    ∷ (if ltb 0 replica_count then "--tls-replication" ∷ "yes" ∷ [] else [])

-- What the calls of `create_servers` have in common.
pub record Setup : Type 0 where
  pub paths : Paths
  pub host : String
  pub cluster_folder : String
  pub tls : Bool
  pub cluster_mode : Bool
  pub load_module : Option (List String)

module _ {W : Type 0} (os : Os W) where
  -- `get_random_string`
  unfoldable pub get_random_string : List String → ℕ → Action W String
  get_random_string letters zero = pure ""
  get_random_string letters (suc n) = do
    c ← tell (os.choice letters)
    s ← get_random_string letters n
    pure (c <> s)

  unfoldable pub create_cluster_folder : List String → String → String → Action W String
  create_cluster_folder letters path prefix = do
    time_str ← tell os.time_str
    random ← get_random_string letters 6
    let cluster_folder : String =
        path <> ("/" <> (prefix <> ("-" <> (time_str <> ("-" <> random)))))
    ask (os.mkdir_exist_ok cluster_folder) >> pure cluster_folder

  -- `port if port else next_free_port()`
  unfoldable pub port_or_free : Option ℕ → Action W ℕ
  port_or_free none = next_free_port os 6379 55535 (seconds 60)
  port_or_free (some port) =
      when port == 0 then next_free_port os 6379 55535 (seconds 60) else pure port

  unfoldable pub start_redis_server : Setup → List String → Option ℕ → Action W Started
  start_redis_server s tls_args port = do
    chosen ← port_or_free port
    let node_folder : String = s.cluster_folder <> ("/" <> str (pos chosen))
    ask (os.mkdir_exist_ok node_folder)
    (p, outputs) ←
        run os (server_args chosen node_folder s.tls tls_args s.cluster_mode s.load_module)
          (seconds 2)
    code ← tell (os.returncode p)
    when is_zero code
        then pure (record { host = s.host; port = chosen }, node_folder)
        else throw (exception "Failed to execute command")

  unfoldable pub remove_folder : String → Action W (Unit {0})
  remove_folder folder_path = do
    (p, outputs) ← run os ("rm" ∷ "-rf" ∷ folder_path ∷ []) (seconds 3)
    code ← tell (os.returncode p)
    when is_zero code then pure tt else throw (exception "Failed to execute command")

  -- `ports[i] if ports else None`
  unfoldable pub port_at : Option (List ℕ) → ℕ → Action W (Option ℕ)
  port_at none i = pure none
  port_at (some []) i = pure none
  port_at (some (p ∷ ps)) i =
      on_option (get_elem? (p ∷ ps) i) (λ port. pure (some port))
        (throw (exception "list index out of range"))

  -- The loop that starts all servers, from the node `i` on.
  unfoldable pub start_all :
      Setup → List String → Option (List ℕ) → ℕ → ℕ → List Started → Action W (List Started)
  start_all s tls_args ports zero i servers_to_check = pure servers_to_check
  start_all s tls_args ports (suc left) i servers_to_check = do
    port ← port_at ports i
    server ← start_redis_server s tls_args port
    start_all s tls_args ports left (i + 1) (server ∷ servers_to_check)

  -- `if tls is True`
  unfoldable pub tls_args_of : Setup → ℕ → Action W (List String)
  tls_args_of s replica_count =
      when s.tls
      then (do
        new ← should_generate_new_tls_certs os s.paths
        when new then generate_tls_certs os s.paths else pure tt
        pure (tls_server_args s.paths s.host replica_count))
      else pure []

-- `set.pop` takes any element: of the list that stands for the set, `x` in front, the element and
-- the others.
abbrev pub SetPop : Type 0 → Type 0
SetPop W = Started → List Started → W → (Started × List Started) × W

module _ {W : Type 0} (os : Os W) (set_pop : SetPop W) where
  -- `while len(servers_to_check) > 0`, for so many rounds at most. Where ports were chosen by the
  -- script, a taken one is replaced, as often as it takes.
  unfoldable pub check_all :
      Setup
      → List String
      → Option (List ℕ)
      → ℕ
      → List Started
      → List RedisServer
      → Action W (List RedisServer)
  check_all s tls_args ports rounds [] ready_servers = pure ready_servers
  check_all s tls_args ports zero (x ∷ xs) ready_servers = stuck
  check_all s tls_args ports (suc rounds) (x ∷ xs) ready_servers = do
    ((server, node_folder), rest) ← tell (set_pop x xs)
    taken ← is_address_already_in_use os (node_folder <> "/redis.log") (seconds 5)
    when taken
        then (remove_folder os node_folder
            >> on_option ports
                (λ _. throw (exception "Couldn't start redis, address already in use"))
                (do
                  new ← start_redis_server os s tls_args none
                  check_all s tls_args ports rounds (new ∷ rest) ready_servers))
        else (do
          up ← wait_for_server os s.paths server s.tls (seconds 10)
          when up
              then check_all s tls_args ports rounds rest (ready_servers ++ server ∷ [])
              else throw (exception "Waiting for server to start exceeded timeout"))

  unfoldable pub create_servers : Setup → ℕ → ℕ → Option (List ℕ) → ℕ → Action W (List RedisServer)
  create_servers s shard_count replica_count ports rounds = do
    tls_args ← tls_args_of os s replica_count
    servers_to_check ← start_all os s tls_args ports (shard_count * (1 + replica_count)) 0 []
    check_all s tls_args ports rounds servers_to_check []
