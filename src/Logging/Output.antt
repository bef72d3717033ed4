-- ===== src/Logging/Output.antt =====
-- The functions of src/common/Log.hh that write to the log, and `GetLogger` of src/common/Log.cc. The
-- formatting of messages is spdlog's, so a message is here with its arguments put in.
use rem_svc.Base.{
  ℕ, ◌≤◌, List, [], ◌∷◌, ◌++◌, Option, none, some, Bool, ◌&&◌, Bytes, codes, is_empty, bytes_eq,
  leb, ltb, if◌then◌else◌, ◌≡◌, refl, arith, append-nil, Bool-cases, inl, inr,
}
use rem_svc.Base.Int.{ℤ, pos, nat_text}
use rem_svc.Logging.{
  Level, level_number, debug, info, error, CliVars, Sink, LogState, init_level, init_logging,
  start_logging, logs_debug, to_int16,
}

-- What a call hands to spdlog.
pub record Entry : Type 0 where
  pub lvl : Level
  pub text : Bytes

abbrev entry : Level → Bytes → List Entry
entry lvl text = record { lvl = lvl; text = text } ∷ []

-- `slog`, the stream that `Log()` and `Log(lvl)` return: the level and the text inserted so far.
pub record Slog : Type 0 where
  pub m_lvl : Level
  pub str : Bytes

abbrev pub log_stream : Level → Slog
log_stream lvl = record { m_lvl = lvl; str = [] }

abbrev pub insert : Slog → Bytes → Slog
insert s text = record s { str = s.str ++ text }

-- `~slog`
unfoldable pub destroy : Slog → List Entry
destroy s = if is_empty s.str then [] else entry s.m_lvl s.str

-- `Log(sv)`, `Log(lvl, sv)` and `Log(e)`
unfoldable pub log_info : Bytes → List Entry
log_info text = entry info text

unfoldable pub log_at : Level → Bytes → List Entry
log_at lvl text = entry lvl text

unfoldable pub log_exception : Bytes → List Entry
log_exception what = entry error what

-- `Log(dbglvl, fmt, …)` and `LogF(dbglvl, fmt, …)`
unfoldable pub log_debug : LogState → ℤ → Bytes → List Entry
unfolding logs_debug
log_debug s dbglvl text = if logs_debug s dbglvl then entry debug text else []

-- The text of `LogLoc`.
unfoldable pub log_loc : Level → Bytes → Bytes → ℕ → Bytes → List Entry
log_loc lvl text file_name line function_name =
    entry lvl (file_name ++ (b':' ∷ nat_text line) ++ (b':' ∷ function_name) ++ (b' ' ∷ text))

-- A logger of spdlog: its level and its sinks.
abbrev pub Logger : Type 0
Logger = Level × List Sink

abbrev pub main_log_name : Bytes
main_log_name = codes "main"

-- `GetLogger`: `others` are the loggers that spdlog has under other names. `none` means that it throws.
unfoldable pub get_logger : (Bytes → Option Logger) → LogState → Option Bytes → Option Logger
get_logger others s logger_name =
    let name : Bytes = elim logger_name [ none ↦ main_log_name | some n ↦ n ] in
    if bytes_eq name main_log_name then s.main_logger else others name

-- `SetLogLevel`, on the main logger.
unfoldable pub set_log_level : Level → LogState → LogState
set_log_level lvl s = record s {
  main_logger = elim s.main_logger [ none ↦ none | some l ↦ some (lvl, l.1) ];
}

-- spdlog's test of an entry's level against that of the logger.
pub record Threshold : Type 0 where
  pub passes : Level → Level → Bool
  pub by_number :
      (own given : Level) → passes own given ≡ leb (level_number own) (level_number given)

-- The sinks of the main logger that get an entry; their own level lets everything through.
unfoldable pub delivered : Threshold → LogState → List Entry → List Sink
delivered threshold s [] = []
delivered threshold s (e ∷ es) =
    let rest = delivered threshold s es in
    elim s.main_logger [
      | none ↦ rest
      | some l ↦ if threshold.passes l.0 e.lvl then l.1 ++ rest else rest
    ]

some-injective : (s t : LogState) → some s ≡ some t → s ≡ t
some-injective s t h = cc

start_logging-init_logging :
    (opens : Bytes → Bool) (vars : CliVars) (lvl : Level) (s t : LogState)
    → start_logging opens vars lvl s ≡ some t
    → init_logging vars lvl s ≡ t
unfolding start_logging
start_logging-init_logging opens vars lvl s t h = ground (arith, h)

init_level-debug :
    (vars : CliVars) (lvl : Level) (n : ℕ)
    → vars.log_level ≡ []
    → vars.dbg_level ≡ pos n
    → init_level vars lvl ≡ (if ltb 0 n then debug else info)
unfolding init_level
init_level-debug vars lvl n no_level with_debug = rw (no_level, with_debug) (ground arith)

to_int16-small : (n : ℕ) → n ≤ 9 → to_int16 (pos n) ≡ pos n
to_int16-small n h = ground arith

delivered-entry :
    (threshold : Threshold) (t : LogState) (own lvl : Level) (text : Bytes)
    → t.main_logger ≡ some (own, t.log_sinks)
    → delivered threshold t (entry lvl text)
      ≡ (if leb (level_number own) (level_number lvl) then t.log_sinks else [])
unfolding delivered
delivered-entry threshold t own lvl text h =
    rw (h, threshold.by_number own lvl) (ground (arith, append-nil t.log_sinks))

log_debug-number :
    (t : LogState) (n k : ℕ) (text : Bytes)
    → t.allowed_debug_level ≡ pos n
    → log_debug t (pos k) text ≡ (if leb k n then entry debug text else [])
unfolding log_debug logs_debug
log_debug-number t n k text h = rw h (ground arith)

delivered-log_debug_number :
    (threshold : Threshold) (t : LogState) (n k : ℕ) (text : Bytes)
    → t.allowed_debug_level ≡ pos n
    → t.main_logger ≡ some (if ltb 0 n then debug else info, t.log_sinks)
    → delivered threshold t (log_debug t (pos k) text)
      ≡ (if ltb 0 n && leb k n then t.log_sinks else [])
unfolding delivered
delivered-log_debug_number threshold t n k text allowed main =
    let out = delivered-entry threshold t (if ltb 0 n then debug else info) debug text main in
    rw (log_debug-number t n k text allowed) (elim (Bool-cases (leb k n)) [
      | inl low ↦ rw (low, out) (ground arith)
      | inr high ↦ rw high (ground arith)
    ])

delivered-init_logging :
    (threshold : Threshold) (vars : CliVars) (lvl : Level) (s : LogState) (n k : ℕ) (text : Bytes)
    → vars.log_level ≡ []
    → vars.dbg_level ≡ pos n
    → n ≤ 9
    → let t = init_logging vars lvl s in
      delivered threshold t (log_debug t (pos k) text)
      ≡ (if ltb 0 n && leb k n then t.log_sinks else [])
unfolding init_logging
delivered-init_logging threshold vars lvl s n k text no_level with_debug small =
    delivered-log_debug_number threshold (init_logging vars lvl s) n k text
      (rw with_debug (ground (arith, to_int16-small n small)))
      (rw (init_level-debug vars lvl n no_level with_debug) refl)

-- After a start of the logging with the debug level n of the command line, at most 9 as CLI11 lets
-- through, and without a level by name, a debug message of level k reaches every sink if n is not 0
-- and k is at most n, and reaches none otherwise: with the debug level 0 not even those of level 0.
pub delivered-log_debug :
    (threshold : Threshold) (opens : Bytes → Bool) (vars : CliVars) (lvl : Level) (s t : LogState)
    (n k : ℕ) (text : Bytes)
    → vars.log_level ≡ []
    → vars.dbg_level ≡ pos n
    → n ≤ 9
    → start_logging opens vars lvl s ≡ some t
    → delivered threshold t (log_debug t (pos k) text)
      ≡ (if ltb 0 n && leb k n then t.log_sinks else [])
delivered-log_debug threshold opens vars lvl s t n k text no_level with_debug small up =
    rw (← start_logging-init_logging opens vars lvl s t up)
      (delivered-init_logging threshold vars lvl s n k text no_level with_debug small)
