-- ===== src/Tests/Logger.antt =====
-- Runs of the logger.
use glide_for_redis.Common.{◌≡◌, none, some, List, [], ◌∷◌}
use glide_for_redis.Logger.{Level, Line, no_logger}
use glide_for_redis.Logger.Configuration.{
  LoggerCall, init_call, log_call, set_call, run, last_set, first_asked, passed, run_lem,
}

abbrev line : Level → Line
line level = record { log_level = level; log_identifier = "test"; message = "a line" }

-- The second `init` changes nothing, and `set_logger_config` lets the last line pass.
abbrev calls : List LoggerCall
calls =
    init_call (some Level.error) none
    ∷ log_call (line Level.warn)
    ∷ init_call (some Level.trace) none
    ∷ log_call (line Level.debug)
    ∷ set_call (some Level.debug) (some "log")
    ∷ log_call (line Level.debug)
    ∷ []

run_lem_example :
    ((run calls no_logger).core ≡ some (record { level = Level.debug; file_name = some "log" }))
    × ((run calls no_logger).lines ≡ line Level.debug ∷ [])
unfolding last_set first_asked passed
run_lem_example = run_lem calls
