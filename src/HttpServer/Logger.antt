-- ===== src/HttpServer/Logger.antt =====
-- HTTP-server-cpp/{include/logger.h, src/logger.cpp}: the logger behind its pointer. spdlog is an
-- interface: its levels, its loggers, and whether a logger writes a message of a level.
use high_load_systems.Common.{
  ℕ, ◌≡◌, ◌<◌, ◌∙◌, refl, inl, inr, Bool, Bool-cases, arith, Option, none, some, leb, if◌then◌else◌,
  Bytes, codes,
}

pub record Spdlog (LogLevel Sink : Type 0) : Type 0 where
  pub level_debug : LogLevel
  pub level_info : LogLevel
  pub level_warn : LogLevel
  pub level_err : LogLevel
  pub level_critical : LogLevel
  pub level_off : LogLevel
  pub new_logger : (log_path : Bytes) → Sink
  pub set_level : LogLevel → Sink → Sink
  pub should_log : Sink → LogLevel → Bool

-- `enum Level`
pub data Level : Type 0 where
  debug_level info_level warning_level error_level critical_level off_level : Level

-- What a call of the logger does.
pub data Logged (LogLevel : Type 0) : Type 0 where
  silent null_logger : Logged LogLevel
  written : LogLevel → Bytes → Logged LogLevel

module _ {LogLevel Sink : Type 0} (spdlog : Spdlog LogLevel Sink) where
  -- `Logger::level_cast`
  abbrev pub level_cast : Level → LogLevel
  level_cast debug_level = spdlog.level_debug
  level_cast info_level = spdlog.level_info
  level_cast warning_level = spdlog.level_warn
  level_cast error_level = spdlog.level_err
  level_cast critical_level = spdlog.level_critical
  level_cast off_level = spdlog.level_off

  -- A method of spdlog writes what its logger's level lets through.
  abbrev pub write_at : LogLevel → Bytes → Sink → Logged LogLevel
  write_at level text logger = if spdlog.should_log logger level then written level text else silent

  -- The test of `debug`, `warn`, `error` and `critical`.
  abbrev pub guarded : LogLevel → Bytes → Option Sink → Logged LogLevel
  guarded level text none = silent
  guarded level text (some logger) =
      if spdlog.should_log logger level then write_at level text logger else silent

  abbrev pub debug : Bytes → Option Sink → Logged LogLevel
  debug text logger = guarded spdlog.level_debug text logger

  -- `info` has no test.
  abbrev pub info : Bytes → Option Sink → Logged LogLevel
  info text none = null_logger
  info text (some logger) = write_at spdlog.level_info text logger

  abbrev pub warn : Bytes → Option Sink → Logged LogLevel
  warn text logger = guarded spdlog.level_warn text logger

  abbrev pub error : Bytes → Option Sink → Logged LogLevel
  error text logger = guarded spdlog.level_err text logger

  abbrev pub critical : Bytes → Option Sink → Logged LogLevel
  critical text logger = guarded spdlog.level_critical text logger

  -- `Logger::init`: the pointer afterwards, and what its last line does.
  abbrev pub init : Bytes → Level → Option Sink → Option Sink × Logged LogLevel
  init log_path log_level logger =
      let logger = some (spdlog.set_level (level_cast log_level) (spdlog.new_logger log_path)) in
      (logger, debug (codes "The logger has been created") logger)

  -- The order of the levels.
  abbrev pub severity : Level → ℕ
  severity debug_level = 0
  severity info_level = 1
  severity warning_level = 2
  severity error_level = 3
  severity critical_level = 4
  severity off_level = 5

  -- The call for a level; there is none for `Off`.
  abbrev pub log_at : Level → Bytes → Option Sink → Logged LogLevel
  log_at debug_level text logger = debug text logger
  log_at info_level text logger = info text logger
  log_at warning_level text logger = warn text logger
  log_at error_level text logger = error text logger
  log_at critical_level text logger = critical text logger
  log_at off_level text logger = silent

  guarded_once :
      (level : LogLevel) (text : Bytes) (logger : Sink)
      → guarded level text (some logger) ≡ write_at level text logger
  guarded_once level text logger = elim (Bool-cases (spdlog.should_log logger level)) [
    | inl loud ↦ rw loud refl
    | inr quiet ↦ rw quiet refl
  ]

  log_at-write_at :
      (level : Level) (text : Bytes) (logger : Sink)
      → severity level < 5
      → log_at level text (some logger) ≡ write_at (level_cast level) text logger
  log_at-write_at debug_level text logger h = guarded_once spdlog.level_debug text logger
  log_at-write_at info_level text logger h = refl
  log_at-write_at warning_level text logger h = guarded_once spdlog.level_warn text logger
  log_at-write_at error_level text logger h = guarded_once spdlog.level_err text logger
  log_at-write_at critical_level text logger h = guarded_once spdlog.level_critical text logger
  log_at-write_at off_level text logger h = absurd (omega arith)

  -- If a logger whose level was set writes from that level on, then after `init` a call writes its text
  -- exactly if its level is no lower than the one given to `init`, and the pointer is not null.
  log_at-init :
      ((level wanted : Level) (logger : Sink)
        → spdlog.should_log (spdlog.set_level (level_cast wanted) logger) (level_cast level)
          ≡ leb (severity wanted) (severity level))
      → (level wanted : Level) (log_path text : Bytes) (logger : Option Sink) → severity level < 5
      → log_at level text (init log_path wanted logger).0 ≡ (
          if leb (severity wanted) (severity level)
          then written (level_cast level) text
          else silent)
  log_at-init law level wanted log_path text logger h =
      log_at-write_at level text _ h ∙ rw (law level wanted (spdlog.new_logger log_path)) refl
