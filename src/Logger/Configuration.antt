-- ===== src/Logger/Configuration.antt =====
-- Which configuration is in force after any calls, and which lines pass.
use glide_for_redis.Common.{
  ◌≡◌, refl, sym, ap, ◌∙◌, Bool, true, false, Option, none, some, String, List, [], ◌∷◌, ◌++◌,
  append_assoc, append-nil, if◌then◌else◌,
}
use glide_for_redis.Logger.{
  Level, Line, CoreConfig, Logger, no_logger, py_init, new_instance, init, log, is_lower,
  set_logger_config,
}

-- A call of one of the three class methods.
pub data LoggerCall : Type 0 where
  init_call : Option Level → Option String → LoggerCall
  log_call : Line → LoggerCall
  set_call : Option Level → Option String → LoggerCall

unfoldable pub call : LoggerCall → Logger → Logger
call (init_call level file_name) self = init level file_name self
call (log_call line) self = log line self
call (set_call level file_name) self = set_logger_config level file_name self

unfoldable pub run : List LoggerCall → Logger → Logger
unfolding call
run [] self = self
run (c ∷ cs) self = run cs (call c self)

-- The configuration of the last `set_logger_config`, if there is one.
unfoldable pub last_set : List LoggerCall → Option CoreConfig
last_set [] = none
last_set (set_call level file_name ∷ cs) = elim (last_set cs) [
  | none ↦ some (py_init level file_name)
  | some later ↦ some later
]
last_set (_ ∷ cs) = last_set cs

-- What the first call asks for: a line asks for the default.
unfoldable pub first_asked : List LoggerCall → Option CoreConfig
first_asked [] = none
first_asked (init_call level file_name ∷ cs) = some (py_init level file_name)
first_asked (log_call line ∷ cs) = some (py_init none none)
first_asked (set_call level file_name ∷ cs) = some (py_init level file_name)

abbrev pub or_else : Option CoreConfig → Option CoreConfig → Option CoreConfig
or_else none other = other
or_else (some c) other = some c

-- The class attributes go with the core's configuration.
abbrev level_of : Option CoreConfig → Option Level
level_of none = none
level_of (some c) = some c.level

abbrev is_some : Option CoreConfig → Bool
is_some none = false
is_some (some c) = true

-- The lines that a list of calls passes on from a configuration.
unfoldable pub passed : Option CoreConfig → List LoggerCall → List Line
unfolding is_lower
passed config [] = []
passed config (init_call level file_name ∷ cs) =
    passed (or_else config (some (py_init level file_name))) cs
passed config (set_call level file_name ∷ cs) = passed (some (py_init level file_name)) cs
passed none (log_call line ∷ cs) =
    let rest = passed (some (py_init none none)) cs in
    if is_lower line.log_level Level.warn then line ∷ rest else rest
passed (some config) (log_call line ∷ cs) =
    let rest = passed (some config) cs in
    if is_lower line.log_level config.level then line ∷ rest else rest

-- A logger by its configuration and its lines.
abbrev logger : Option CoreConfig → List Line → Logger
logger core lines = record {
  has_instance = is_some core;
  logger_level = level_of core;
  core = core;
  lines = lines;
}

-- One line, passed on or not, and what comes of the calls behind it.
line_run :
    (b : Bool) (c : CoreConfig) (line : Line) (lines : List Line) (cs : List LoggerCall)
    → ((ls : List Line)
        → run cs (logger (some c) ls)
          ≡ logger (or_else (last_set cs) (some c)) (ls ++ passed (some c) cs))
    → run cs (if b then logger (some c) (lines ++ line ∷ []) else logger (some c) lines)
      ≡ logger
          (or_else (last_set cs) (some c))
          (lines ++ (if b then line ∷ passed (some c) cs else passed (some c) cs))
line_run true c line lines cs ih =
    ih (lines ++ line ∷ [])
    ∙ ap (logger (or_else (last_set cs) (some c)))
        (append_assoc lines (line ∷ []) (passed (some c) cs))
line_run false c line lines cs ih = ih lines

or_else-or_else :
    (later : Option CoreConfig) (c : CoreConfig) (core : Option CoreConfig)
    → or_else later (some c)
      ≡ or_else (elim later [ none ↦ some c | some l ↦ some l ]) (or_else core (some c))
or_else-or_else none c core = refl
or_else-or_else (some l) c core = refl

run-logger :
    (cs : List LoggerCall) (core : Option CoreConfig) (lines : List Line)
    → run cs (logger core lines)
      ≡ logger (or_else (last_set cs) (or_else core (first_asked cs))) (lines ++ passed core cs)
unfolding run init log set_logger_config new_instance last_set first_asked passed
run-logger [] none lines = ap (logger none) (sym (append-nil lines))
run-logger [] (some c) lines = ap (logger (some c)) (sym (append-nil lines))
run-logger (init_call level file_name ∷ cs) none lines =
    run-logger cs (some (py_init level file_name)) lines
run-logger (init_call level file_name ∷ cs) (some c) lines = run-logger cs (some c) lines
run-logger (log_call line ∷ cs) none lines =
    line_run (is_lower line.log_level Level.warn) (py_init none none) line lines cs
      (run-logger cs (some (py_init none none)))
run-logger (log_call line ∷ cs) (some c) lines =
    line_run (is_lower line.log_level c.level) c line lines cs (run-logger cs (some c))
run-logger (set_call level file_name ∷ cs) core lines =
    run-logger cs (some (py_init level file_name)) lines
    ∙ ap (λ k. logger k (lines ++ passed (some (py_init level file_name)) cs))
        (or_else-or_else (last_set cs) (py_init level file_name) core)

-- After any calls of the three methods the core is set to what the last `set_logger_config` asked
-- for; without one, to what the first call asked for, where a line asks for the default; `init`
-- changes nothing when there is a configuration. The lines passed to the core are those that were
-- not less severe than the level in force at their call, in order.
pub run_lem :
    (cs : List LoggerCall)
    → ((run cs no_logger).core ≡ or_else (last_set cs) (first_asked cs))
      × ((run cs no_logger).lines ≡ passed none cs)
run_lem cs = (
  ap (λ (s : Logger). s.core) (run-logger cs none []),
  ap (λ (s : Logger). s.lines) (run-logger cs none []),
)
