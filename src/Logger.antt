-- ===== src/Logger.antt =====
-- python/python/glide/logger.py: the one logger of a process. `Level` and `is_lower` are those of
-- python/src/lib.rs, and `py_init` is `init` of logger_core/src/lib.rs, as far as the configuration.
pub mod Configuration
use glide_for_redis.Common.{
  ℕ, Bool, true, false, Option, none, some, String, List, [], ◌∷◌, ◌++◌, leb, if◌then◌else◌,
}

pub data Level : Type 0 where
  error warn info debug trace : Level

abbrev pub rank : Level → ℕ
rank error = 0
rank warn = 1
rank info = 2
rank debug = 3
rank trace = 4

unfoldable pub is_lower : Level → Level → Bool
is_lower self level = leb (rank self) (rank level)

-- A line that is passed to the core.
pub record Line : Type 0 where
  pub log_level : Level
  pub log_identifier : String
  pub message : String

-- What the core is set to: the least severe level that it lets pass, and the file, if any.
pub record CoreConfig : Type 0 where
  pub level : Level
  pub file_name : Option String

-- The class attributes `_instance` (whether it is set) and `logger_level`, the core's configuration,
-- and the lines passed to it, oldest first. Before the first instance there is no level.
pub record Logger : Type 0 where
  pub has_instance : Bool
  pub logger_level : Option Level
  pub core : Option CoreConfig
  pub lines : List Line

abbrev pub no_logger : Logger
no_logger = record { has_instance = false; logger_level = none; core = none; lines = [] }

-- `minimal_level.unwrap_or(Level::Warn)`, and the core's configuration.
abbrev pub py_init : Option Level → Option String → CoreConfig
py_init none file_name = record { level = warn; file_name = file_name }
py_init (some level) file_name = record { level = level; file_name = file_name }

-- `Logger(level, file_name)`, and its assignment to `_instance`.
unfoldable pub new_instance : Option Level → Option String → Logger → Logger
new_instance level file_name self =
    let core = py_init level file_name in
    record self { has_instance = true; logger_level = some core.level; core = some core }

unfoldable pub init : Option Level → Option String → Logger → Logger
unfolding new_instance
init level file_name self = if self.has_instance then self else new_instance level file_name self

-- With an instance, `logger_level` is set.
unfoldable pub py_log : Line → Logger → Logger
unfolding is_lower
py_log line self = elim self.logger_level [
  | none ↦ self
  | some level ↦
      if is_lower line.log_level level
      then record self { lines = self.lines ++ line ∷ [] }
      else self
]

unfoldable pub log : Line → Logger → Logger
unfolding py_log new_instance
log line self = py_log line (if self.has_instance then self else new_instance none none self)

unfoldable pub set_logger_config : Option Level → Option String → Logger → Logger
unfolding new_instance
set_logger_config level file_name self = new_instance level file_name self
