-- ===== src/Logging.antt =====
-- src/common/Log.{hh,cc} and the logging part of src/common/CLI.cc: the level and file names, the
-- global variables and `InitLogging`, `TermLogging` and `GetLogger`. The levels are those of spdlog.
pub mod Levels
pub mod Output
mod Tests
use rem_svc.Base.{
  ℕ, ◌+◌, ◌-◌, ◌%◌, ◌^◌, List, [], ◌∷◌, ◌++◌, Option, none, some, Bool, not, ◌&&◌, Bytes, codes,
  is_empty, length, drop, bytes_eq, ltb, ◌==◌, if◌then◌else◌,
}
use rem_svc.Base.Int.{ℤ, pos, negsuc, leb_ℤ, ltb_ℤ}

-- `log_level_enum`
pub data Level : Type 0 where
  trace debug info warn error critical off n_levels : Level

abbrev pub level_number : Level → ℕ
level_number trace = 0
level_number debug = 1
level_number info = 2
level_number warn = 3
level_number error = 4
level_number critical = 5
level_number off = 6
level_number n_levels = 7

-- `StrToLogLevel`
unfoldable pub str_to_log_level : Bytes → Level
str_to_log_level s =
    if bytes_eq s (codes "trace")
    then trace
    else if bytes_eq s (codes "debug")
    then debug
    else if bytes_eq s (codes "info")
    then info
    else if bytes_eq s (codes "warn")
    then warn
    else if bytes_eq s (codes "error")
    then error
    else info

-- The part of a text in front of the last `c`.
abbrev cons_before : ℕ → Bool → Bytes → Option Bytes → Option Bytes
cons_before x hit s (some before) = some (x ∷ before)
cons_before x hit s none = if hit then some [] else none

pub before_last : ℕ → Bytes → Option Bytes
before_last c [] = none
before_last c (x ∷ s) = cons_before x (x == c) s (before_last c s)

-- A file name without its extension, as `std::filesystem::path` reads it on POSIX: a leading dot
-- begins no extension, and `..` has none.
pub stem : Bytes → Bytes
unfolding before_last
stem file = if bytes_eq file (codes "..") then file else elim (before_last b'.' file) [
  | none ↦ file
  | some before ↦ if is_empty before then file else before
]

-- `path::replace_extension(".log")`
unfoldable pub default_log_file_name : Bytes → Bytes
unfolding stem
default_log_file_name app_name = elim (before_last b'/' app_name) [
  | none ↦ stem app_name ++ codes ".log"
  | some folder ↦ (folder ++ b'/' ∷ stem (drop (length folder + 1) app_name)) ++ codes ".log"
]

-- The globals `CliLogFile`, `CliLogLevel`, `CliDbgLevel`.
pub record CliVars : Type 0 where
  pub log_file : Bytes
  pub log_level : Bytes
  pub dbg_level : ℤ

pub data Sink : Type 0 where
  console : Sink
  rotating_file : Bytes → ℕ → ℕ → Sink

-- The globals of Log.cc; the main logger with its level and sinks, where there is one.
pub record LogState : Type 0 where
  pub allowed_debug_level : ℤ
  pub log_file_name : Bytes
  pub log_sinks : List Sink
  pub main_logger : Option (Level × List Sink)

-- A conversion of an `int` that is not negative to `int16_t`.
abbrev pub to_int16 : ℤ → ℤ
to_int16 (negsuc n) = negsuc n
to_int16 (pos n) =
    if ltb (n % 2 ^ 16) (2 ^ 15) then pos (n % 2 ^ 16) else negsuc (2 ^ 16 - n % 2 ^ 16 - 1)

-- The level that `InitLogging` gives the main logger.
unfoldable pub init_level : CliVars → Level → Level
unfolding str_to_log_level
init_level cli lvl =
    let by_debug =
      if leb_ℤ (pos 0) cli.dbg_level
      then (if ltb_ℤ (pos 0) cli.dbg_level then debug else info)
      else lvl in
    if is_empty cli.log_level then by_debug else str_to_log_level cli.log_level

-- What `InitLogging` leaves where nothing throws.
unfoldable pub init_logging : CliVars → Level → LogState → LogState
unfolding init_level
init_logging cli lvl s =
    let file = if is_empty cli.log_file then s.log_file_name else cli.log_file in
    let console_sinks = s.log_sinks ++ console ∷ [] in
    let sinks =
      if is_empty file
      then console_sinks
      else console_sinks ++ rotating_file file 10485760 10 ∷ [] in
    record {
      allowed_debug_level =
          if leb_ℤ (pos 0) cli.dbg_level then to_int16 cli.dbg_level else s.allowed_debug_level;
      log_file_name = file;
      log_sinks = sinks;
      main_logger = some (init_level cli lvl, sinks);
    }

-- `InitLogging` with its exceptions, which end the program: `none` if the log file cannot be opened, or
-- if there is a main logger already, so that its name is taken.
unfoldable pub start_logging : (Bytes → Bool) → CliVars → Level → LogState → Option LogState
unfolding init_logging
start_logging opens cli lvl s =
    let file = if is_empty cli.log_file then s.log_file_name else cli.log_file in
    if not (is_empty file) && not (opens file)
    then none
    else elim s.main_logger [ some logger ↦ none | none ↦ some (init_logging cli lvl s) ]

-- What `InitLogging` has changed where it throws: without the log file, only the console is among the
-- sinks; with it, all is set before the name is refused.
unfoldable pub left_logging : (Bytes → Bool) → CliVars → Level → LogState → LogState
unfolding init_logging
left_logging opens cli lvl s =
    let file = if is_empty cli.log_file then s.log_file_name else cli.log_file in
    if not (is_empty file) && not (opens file)
    then record {
      allowed_debug_level =
          if leb_ℤ (pos 0) cli.dbg_level then to_int16 cli.dbg_level else s.allowed_debug_level;
      log_file_name = file;
      log_sinks = s.log_sinks ++ console ∷ [];
      main_logger = s.main_logger;
    }
    else init_logging cli lvl s

-- `TermLogging`: the sinks and the logger are dropped, the file name stays.
unfoldable pub term_logging : LogState → LogState
term_logging s = record s { log_sinks = []; main_logger = none }

-- `Log(DebugLevels, …)` reaches the logger.
unfoldable pub logs_debug : LogState → ℤ → Bool
logs_debug s level = leb_ℤ level s.allowed_debug_level
