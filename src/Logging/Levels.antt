-- ===== src/Logging/Levels.antt =====
-- What `InitLogging` and `TermLogging` (src/common/Log.cc) leave in the globals.
use rem_svc.Base.{
  [], ◌∷◌, List, Option, none, some, Bool, Bytes, is_empty, if◌then◌else◌, ◌≡◌, arith,
}
use rem_svc.Logging.{
  Level, Sink, CliVars, LogState, console, rotating_file, init_logging, start_logging, term_logging,
}

abbrev pub sinks_of : Option LogState → Option (List Sink)
sinks_of none = none
sinks_of (some s) = some s.log_sinks

-- After a start of the logging and its end, a second start works unless the log file cannot be opened,
-- and has the sinks of a first one: the console, and behind it the file of the given name, or else the
-- file of the earlier start.
log_sinks-restart :
    (opens : Bytes → Bool) (first second : CliVars) (lvl lvl' : Level) (s t : LogState)
    → start_logging opens first lvl s ≡ some t
    → let file = if is_empty second.log_file then t.log_file_name else second.log_file in
      sinks_of (start_logging opens second lvl' (term_logging t)) ≡ (
        if is_empty file
        then some (console ∷ [])
        else if opens file
        then some (console ∷ rotating_file file 10485760 10 ∷ [])
        else none)
unfolding start_logging init_logging term_logging
log_sinks-restart opens first second lvl lvl' s t h = ground arith
