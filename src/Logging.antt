-- ===== src/Logging.antt =====
-- Rune/src/core/system_logging.cpp and its header: `SystemLogging`, and the macros of
-- Rune/src/common_internal.hpp through which everything logs. The logging library is a parameter: what
-- is asked of it is recorded. The place in the source that a line names is left out.
pub mod Said
pub mod Whole
mod Tests
use rune_old.Base.{
  ℕ, Bool, true, false, Option, none, some, List, [], ◌∷◌, ◌++◌, if◌then◌else◌, Bytes, codes,
  Outcome, ok, fault, ◌>>=◌, null_access, for_each,
}
use rune_old.Paths.{join}

pub data LogLevel : Type 0 where
  trace debug info warn error critical : LogLevel

-- `spdlog::level::level_enum`
pub data Severity : Type 0 where
  trace debug info warn err critical : Severity

unfoldable pub convert_log_level : LogLevel → Severity
convert_log_level LogLevel.trace = Severity.trace
convert_log_level LogLevel.debug = Severity.debug
convert_log_level LogLevel.info = Severity.info
convert_log_level LogLevel.warn = Severity.warn
convert_log_level LogLevel.error = Severity.err
convert_log_level LogLevel.critical = Severity.critical

-- What is asked of the library: a logger on the console and a file, its pattern and its level, a line,
-- a flush, and the shutdown.
pub data LogCall : Type 0 where
  make_logger set_pattern : Bytes → LogCall
  set_level : Severity → LogCall
  log_line : Severity → Bytes → LogCall
  flush_logger shutdown_library : LogCall

-- `defaultLogger` is a pointer: whether it is there is all that the code knows of it.
pub record SystemLogging : Type 0 where
  pub log_dir : Bytes
  pub has_logger : Bool
  pub calls : List LogCall

abbrev pub ask : List LogCall → SystemLogging → SystemLogging
ask cs s = record s { calls = s.calls ++ cs }

abbrev pub new_logging : Bytes → SystemLogging
new_logging dir = record { log_dir = dir; has_logger = false; calls = [] }

unfoldable pub log : LogLevel → Bytes → SystemLogging → Outcome SystemLogging
log level msg s =
    if s.has_logger
    then ok (ask (log_line (convert_log_level level) msg ∷ []) s)
    else fault null_access

unfoldable pub flush : SystemLogging → Outcome SystemLogging
flush s = if s.has_logger then ok (ask (flush_logger ∷ []) s) else fault null_access

-- `distro` says that the program is built for distribution, where the macros are empty.
module _ (distro : Bool) where
  -- `LOG_TRACE` and so on.
  unfoldable pub log_macro : LogLevel → Bytes → SystemLogging → Outcome SystemLogging
  log_macro level msg s = if distro then ok s else log level msg s

  unfoldable pub initialise : SystemLogging → Outcome SystemLogging
  unfolding log_macro
  initialise s = log_macro info (codes "Logging system initialised.") (record s {
    has_logger = true;
    calls =
        s.calls
        ++ make_logger (join s.log_dir (codes "log.txt"))
          ∷ set_pattern (codes "%T:%e | %^%-8l%$ | thread=%-6t | %s:%# - %v")
          ∷ set_level (if distro then Severity.info else Severity.trace)
          ∷ [];
  })

  unfoldable pub shutdown : SystemLogging → Outcome SystemLogging
  unfolding log_macro flush
  shutdown s = do
    logged ← log_macro info (codes "Logging system is shutting down.") s
    flushed ← flush logged
    ok (ask (shutdown_library ∷ []) (record flushed { has_logger = false }))
