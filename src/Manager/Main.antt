-- ===== src/Manager/Main.antt =====
-- `main` of utils/cluster_manager.py, from the arguments that `argparse` makes of the command line.
use Prim.Native.String.{◌++◌ as ◌<>◌}
use text.Mathlib.Text.{◌==◌ as ◌=$=◌}
use glide_for_redis.Common.{
  ℕ, ◌+◌, ◌*◌, Bool, true, false, ◌&&◌, ◌||◌, Option, none, some, String, List, [], ◌∷◌, map,
  length, ◌==◌, if◌then◌else◌,
}
use glide_for_redis.Manager.System.{
  when◌then◌else◌, not_a_directory, usage, Action, pure, throw, ask, tell, ◌>>=◌, ◌>>◌, try_except,
  Os,
}
use glide_for_redis.Manager.Text.{join}
use glide_for_redis.Manager.Waiting.{server_text, Paths}
use glide_for_redis.Manager.Servers.{SetPop, create_cluster_folder, create_servers}
use glide_for_redis.Manager.Linking.{create_cluster, create_standalone_replication, is_in}
use glide_for_redis.Manager.Stopping.{text_or, init_logger, stop_clusters}

-- The arguments of both actions, and of each. Counts are natural numbers.
pub record Args : Type 0 where
  pub host : String
  pub tls : Bool
  pub auth : Option String
  pub log : String
  pub logfile : Option String

pub record StartArgs : Type 0 where
  pub cluster_mode : Bool
  pub folder_path : String
  pub ports : Option (List ℕ)
  pub shard_count : ℕ
  pub replica_count : ℕ
  pub prefix : String
  pub load_module : Option (List String)

pub record StopArgs : Type 0 where
  pub folder_path : String
  pub prefix : Option String
  pub cluster_folder : Option String
  pub keep_folder : Bool

pub data ToolAction : Type 0 where
  start : StartArgs → ToolAction
  stop : StopArgs → ToolAction
  no_action : ToolAction

abbrev pub log_levels : List String
log_levels = "critical" ∷ "error" ∷ "warn" ∷ "warning" ∷ "info" ∷ "debug" ∷ []

abbrev pub is_given : Option String → Bool
is_given none = false
is_given (some t) = if t =$= "" then false else true

-- `if not args.cluster_mode: args.shard_count = 1`
abbrev pub shards : StartArgs → ℕ
shards args = if args.cluster_mode then args.shard_count else 1

abbrev pub nodes : StartArgs → ℕ
nodes args = shards args * (1 + args.replica_count)

-- `args.ports and len(args.ports) != …`
abbrev pub ports_match : StartArgs → Bool
ports_match args = elim args.ports [
  | none ↦ true
  | some [] ↦ true
  | some (p ∷ ps) ↦ length (p ∷ ps) == nodes args
]

module _ {W : Type 0} (os : Os W) where
  -- The type of the folder arguments.
  unfoldable pub dir_path : String → Action W String
  dir_path path = do
    try_except (λ e. true) (ask (os.mkdir_exist_ok path)) (λ e. pure tt)
    folder ← tell (os.is_dir path)
    when folder then pure path else throw (not_a_directory path)

-- `lower` is `str.lower`, and `letters` what `get_random_string` chooses from. `rounds` bounds the
-- loop of `create_servers`.
module _ {W : Type 0} (os : Os W) (set_pop : SetPop W) (paths : Paths) (letters : List String)
    (lower : String → String) (rounds : ℕ) where
  unfoldable pub start_servers : Args → StartArgs → Action W (Unit {0})
  start_servers args a =
      when ports_match a
      then (do
        let cluster_prefix : String = if args.tls then "tls-" <> a.prefix else a.prefix
        cluster_folder ← create_cluster_folder os letters a.folder_path cluster_prefix
        init_logger os (text_or args.logfile (cluster_folder <> "/cluster_manager.log"))
        servers ←
            create_servers os set_pop
              (record {
                paths = paths;
                host = args.host;
                cluster_folder = cluster_folder;
                tls = args.tls;
                cluster_mode = a.cluster_mode;
                load_module = a.load_module;
              })
              (shards a) a.replica_count a.ports rounds
        when a.cluster_mode
            then create_cluster os paths servers a.replica_count cluster_folder args.tls
            else create_standalone_replication os paths servers cluster_folder args.tls
        tell (os.print ("CLUSTER_FOLDER=" <> cluster_folder))
        tell (os.print ("CLUSTER_NODES=" <> join "," (map server_text servers))))
      else throw (usage "The number of ports must be equal to the total number of nodes.")

  unfoldable pub stop_servers : Args → StopArgs → Action W (Unit {0})
  stop_servers args a =
      when is_given a.cluster_folder && is_given a.prefix
      then throw (usage "--cluster-folder cannot be passed together with --prefix")
      else when is_given a.cluster_folder || is_given a.prefix
      then stop_clusters os paths args.host a.folder_path a.prefix a.cluster_folder args.tls
          args.auth args.logfile a.keep_folder
      else throw (usage "One of following arguments is required: --cluster-folder or --prefix")

  unfoldable pub perform : Args → ToolAction → Action W (Unit {0})
  perform args (start a) = start_servers args a
  perform args (stop a) = stop_servers args a
  perform args no_action = pure tt

  unfoldable pub main : Args → ToolAction → Action W (Unit {0})
  main args action =
      when is_in (lower args.log) log_levels
      then perform args action
      else throw (usage "log level given must be one of the levels")
