-- ===== src/Manager/Stopping.antt =====
-- Stopping servers, in utils/cluster_manager.py.
use Prim.Native.String.{◌++◌ as ◌<>◌}
use text.Mathlib.Text.{◌==◌ as ◌=$=◌, starts_with}
use glide_for_redis.Common.{
  ℕ, zero, suc, Bool, false, ◌&&◌, ◌||◌, Option, none, some, String, List, [], ◌∷◌, if◌then◌else◌,
}
use glide_for_redis.Manager.System.{
  when◌then◌else◌, exception, Action, pure, throw, ask, tell, ◌>>=◌, ◌>>◌, try_except, is_timeout,
  Os, seconds,
}
use glide_for_redis.Manager.Text.{contains, isdigit, int_of}
use glide_for_redis.Manager.Waiting.{RedisServer, Paths, cli_args, run, wait_for_server_shutdown}
use glide_for_redis.Manager.Servers.{remove_folder}

abbrev pub text_or : Option String → String → String
text_or none other = other
text_or (some t) other = if t =$= "" then other else t

module _ {W : Type 0} (os : Os W) where
  -- One round of `stop_server`: true if the server is down.
  unfoldable pub try_stop : Paths → RedisServer → Bool → Option String → Action W (Unit {0})
  try_stop paths server use_tls auth = do
    (p, (output, err)) ←
        run os (cli_args paths server use_tls auth ("shutdown" ∷ "nosave" ∷ [])) (seconds 5)
    when (err =$= "") || contains "Warning: Using a password with '-a'" err
        then pure tt
        else throw (exception "Failed to execute command")
    down ← wait_for_server_shutdown os paths server use_tls auth (seconds 20)
    when down
        then pure tt
        else throw (exception "Timeout elapsed while waiting for the node to shutdown")

  -- `while retries >= 0`, where `tries` is `retries + 1`: only a timeout leads to another round.
  unfoldable pub stop_loop : Paths → RedisServer → Bool → Option String → ℕ → Action W (Unit {0})
  stop_loop paths server use_tls auth zero = throw (exception "Failed to shutdown host")
  stop_loop paths server use_tls auth (suc tries) =
      try_except is_timeout (try_stop paths server use_tls auth)
        (λ e. stop_loop paths server use_tls auth tries)

  unfoldable pub stop_server : Paths → RedisServer → Bool → Option String → Action W (Unit {0})
  stop_server paths server use_tls auth = stop_loop paths server use_tls auth 4

  -- The loop over the entries of the folder.
  unfoldable pub stop_entries :
      Paths → String → Bool → Option String → List (String × Bool) → Action W (Unit {0})
  stop_entries paths host use_tls auth [] = pure tt
  stop_entries paths host use_tls auth ((name, folder) ∷ entries) =
      when folder && isdigit name
      then stop_server paths (record { host = host; port = int_of name }) use_tls auth
        >> stop_entries paths host use_tls auth entries
      else stop_entries paths host use_tls auth entries

  unfoldable pub init_logger : String → Action W (Unit {0})
  init_logger logfile = tell (os.print ("LOG_FILE=" <> logfile)) >> ask (os.open_log logfile)

  unfoldable pub stop_cluster :
      Paths → String → String → Bool → Option String → Option String → Bool → Action W (Unit {0})
  stop_cluster paths host cluster_folder use_tls auth logfile keep_folder = do
    init_logger (text_or logfile (cluster_folder <> "/cluster_manager.log"))
    entries ← ask (os.scandir cluster_folder)
    stop_entries paths host use_tls auth entries
    when keep_folder then pure tt else remove_folder os cluster_folder

  -- The comprehension over the names in the folder.
  unfoldable pub folders_with_prefix : String → Option String → List String → Action W (List String)
  folders_with_prefix folder_path prefix [] = pure []
  folders_with_prefix folder_path prefix (name ∷ names) = do
    let path : String = folder_path <> ("/" <> name)
    folder ← tell (os.is_dir path)
    let wanted : Bool = elim prefix [ none ↦ false | some p ↦ starts_with name p ]
    when folder && wanted
        then (do
          found ← tell (os.abspath path)
          rest ← folders_with_prefix folder_path prefix names
          pure (found ∷ rest))
        else folders_with_prefix folder_path prefix names

  unfoldable pub stop_all :
      Paths
      → String
      → Bool
      → Option String
      → Option String
      → Bool
      → List String
      → Action W (Unit {0})
  stop_all paths host use_tls auth logfile keep_folder [] = pure tt
  stop_all paths host use_tls auth logfile keep_folder (folder ∷ folders) =
      stop_cluster paths host folder use_tls auth logfile keep_folder
      >> stop_all paths host use_tls auth logfile keep_folder folders

  unfoldable pub stop_clusters :
      Paths
      → String
      → String
      → Option String
      → Option String
      → Bool
      → Option String
      → Option String
      → Bool
      → Action W (Unit {0})
  stop_clusters paths host folder_path prefix cluster_folder use_tls auth logfile keep_folder = do
    let given : String = text_or cluster_folder ""
    folders ←
        when given =$= ""
        then (do names ← ask (os.listdir folder_path); folders_with_prefix folder_path prefix names)
        else pure (given ∷ [])
    stop_all paths host use_tls auth logfile keep_folder folders
