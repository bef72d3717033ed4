-- ===== src/Cli.antt =====
-- `ConfigureCLI` of src/common/CLI.cc, which the server and the client share. What CLI11 makes of the
-- command line is a parameter: the options that were given, or that the parse throws.
use rem_svc.Base.{Option, none, some, Bool, false, ◌||◌, Bytes, if◌then◌else◌}
use rem_svc.Base.Int.{ℤ, pos, ltb_ℤ}
use rem_svc.Logging.{CliVars}

-- The value of an option that was given, else what its variable held.
abbrev pub given {ℓ} : {A : Type ℓ} → Option A → A → A
given none old = old
given (some new) old = new

-- `argv[0]`, and what was given of the options that `ConfigureCLI` adds; `debug` may also be given by
-- the variable `DBGLVL`, and `parse_error` is an error of another kind than its range.
pub record CommonArgs : Type 0 where
  pub parse_error : Bool
  pub version : Bool
  pub app_name : Bytes
  pub log_file : Option Bytes
  pub debug : Option ℤ
  pub log_level : Option Bytes

-- `CLI::Range(0, 9)`
abbrev pub out_of_range : Option ℤ → Bool
out_of_range none = false
out_of_range (some level) = ltb_ℤ level (pos 0) || ltb_ℤ (pos 9) level

-- `ConfigureCLI`: its result, and what it leaves in the global variables. A debug level out of range
-- ends the parse before it and the options behind it are stored.
unfoldable pub configure_cli : CommonArgs → CliVars → ℤ × CliVars
configure_cli args vars =
    let set : CliVars = record {
      log_file = given args.log_file vars.log_file;
      log_level = given args.log_level vars.log_level;
      dbg_level = given args.debug vars.dbg_level;
    } in
    if args.parse_error
    then (pos 1, set)
    else if out_of_range args.debug
    then (
      pos 1,
      record { log_file = set.log_file; log_level = vars.log_level; dbg_level = vars.dbg_level },
    )
    else if args.version
    then (pos 1, set)
    else (pos 0, set)
