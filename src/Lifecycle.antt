-- ===== src/Lifecycle.antt =====
-- The whole run of the server: `main` of src/server/RemSvcServer.cc around the start that Server.antt
-- has, with `setupSignalHandlers` of src/server/SignalHandler.cc, the event loop of Qt, and
-- `GrpcServerThread::run` and `stop` (src/server/GrpcServerThread.cc), on POSIX. What happens
-- while the event loop runs is a list of events. The system's part, such as whether `pipe` works, is a
-- parameter.
pub mod Shutdown
mod Tests
use rem_svc.Base.{
  ℕ, ◌+◌, ◌-◌, ◌*◌, ◌%◌, ◌^◌, List, [], ◌∷◌, Option, none, some, Bool, true, false, not, Bytes,
  codes, ltb, ◌==◌, if◌then◌else◌,
}
use rem_svc.Base.Int.{ℤ, pos, negsuc}
use rem_svc.Env.{GetEnv}
use rem_svc.Policy.{RegexEngine}
use rem_svc.Config.{IniFile}
use rem_svc.Logging.{CliVars, LogState, info, left_logging, start_logging, term_logging}
use rem_svc.Server.{
  Args, Setup, exits, continues, startup, GrpcServer, raises, started, make_server,
}
use rem_svc.Signals.{Pipe, no_signals, on_signal, handle_signal}

-- The results of the system calls of `setupSignalHandlers`, and the room in the pipe.
pub record Posix : Type 0 where
  pub pipe_made : Bool
  pub sigint_installed : Bool
  pub sigterm_installed : Bool
  pub room : ℕ
  -- The log file can be opened.
  pub log_opens : Bytes → Bool

-- `setupSignalHandlers`: what `qFatal` says, which ends the program.
pub setup_signal_handlers : Posix → Option Bytes
setup_signal_handlers os =
    if not os.pipe_made
    then some (codes "SignalHandler: failed to create self-pipe")
    else if not os.sigint_installed
    then some (codes "SignalHandler: failed to install SIGINT handler")
    else if not os.sigterm_installed
    then some (codes "SignalHandler: failed to install SIGTERM handler")
    else none

-- While the event loop runs: a signal arrives, on another thread if the pipe is full and the write
-- waits, or the loop looks at the notifier.
pub data Event : Type 0 where
  signal wakeup : Event

-- `qt_app.exec()`: a look at the notifier calls `handleSignal` if there is a byte, and the loop returns,
-- with the pipe as it is then, if that has emitted `quitRequested`, which is connected to `quit`; `none`
-- means that it still runs behind all the events.
pub exec : ℕ → List Event → Pipe → Option Pipe
exec room [] p = none
exec room (signal ∷ events) p = exec room events (on_signal room p)
exec room (wakeup ∷ events) p =
    let rest = exec room events p in
    let handled = handle_signal p in
    let more = exec room events handled in
    if p.bytes == 0 then rest else if ltb p.quits handled.quits then some handled else more

abbrev pub has {ℓ} : {A : Type ℓ} → Option A → Bool
has none = false
has (some a) = true

-- A number as an `int64_t`.
abbrev pub to_int64 : ℤ → ℤ
to_int64 (pos n) =
    if ltb (n % 2 ^ 64) (2 ^ 63) then pos (n % 2 ^ 64) else negsuc (2 ^ 64 - n % 2 ^ 64 - 1)
to_int64 (negsuc n) =
    if ltb (n % 2 ^ 64) (2 ^ 63) then negsuc (n % 2 ^ 64) else pos (2 ^ 64 - n % 2 ^ 64 - 1)

abbrev pub double : ℤ → ℤ
double (pos n) = pos (2 * n)
double (negsuc n) = negsuc (2 * n + 1)

-- A time of the system clock, in milliseconds, moved by a number.
abbrev pub shift : ℕ → ℤ → ℤ
shift now (pos n) = pos (now + n)
shift now (negsuc n) = if ltb n now then pos (now - n - 1) else negsuc (n - now)

-- The deadline that `stop` hands to `Shutdown`.
pub shutdown_deadline : ℕ → ℤ → ℤ
shutdown_deadline now cmd_timeout_ms = shift now (to_int64 (double cmd_timeout_ms))

-- `main` returns, or the program ends by `qFatal` or an exception with a text of the program, or by an
-- exception of the logging library, or the event loop still runs.
pub data Exit : Type 0 where
  returns : ℤ → Exit
  aborts : Bytes → Exit
  logging_fails : Exit
  serves : Exit

-- What is left behind: the globals of the logging, the server that was started, and the deadline of its
-- shutdown.
pub record Finish (engine : RegexEngine) : Type 0 where
  pub exit : Exit
  pub log : LogState
  pub server : Option (GrpcServer engine)
  pub deadline : Option ℤ

module _ (engine : RegexEngine) (disk : Bytes → Option Bytes) (builds : Bool) (stopped_at : ℕ) where
  -- The event loop, which ends or not, and what follows it. `wait` of `stop` joins the thread, whose `run`
  -- returns with the server's shutdown.
  pub serve : Bool → Setup → LogState → GrpcServer engine → Finish engine
  unfolding shutdown_deadline
  serve false setup log srv = record {
    exit = serves;
    log = log;
    server = some srv;
    deadline = none;
  }
  serve true setup log srv = record {
    exit = returns (pos 0);
    log = term_logging log;
    server = some srv;
    deadline = some (shutdown_deadline stopped_at setup.cmd_timeout_ms);
  }

  -- Behind `InitLogging`: `failure` is what `setupSignalHandlers` ends the program with.
  pub run_logged : Option Bytes → Bool → Setup → LogState → Finish engine
  unfolding serve
  run_logged failure ended setup logged = elim failure [
    | some text ↦ record { exit = aborts text; log = logged; server = none; deadline = none }
    | none ↦ elim (make_server engine disk builds setup) [
      | raises text ↦ record { exit = aborts text; log = logged; server = none; deadline = none }
      | started srv ↦ serve ended setup logged srv
    ]
  ]

  -- From `InitLogging` on.
  pub run_configured : (Bytes → Bool) → Option Bytes → Bool → Setup → LogState → Finish engine
  unfolding run_logged left_logging
  run_configured log_opens failure ended setup log =
      elim (start_logging log_opens setup.cli info log) [
        | none ↦ record {
          exit = logging_fails;
          log = left_logging log_opens setup.cli info log;
          server = none;
          deadline = none;
        }
        | some logged ↦ run_logged failure ended setup logged
      ]

  -- `main` for what `setupSignalHandlers` and the event loop do.
  pub main_with :
      (Bytes → Bool)
      → Option Bytes
      → Bool
      → (Bytes → IniFile)
      → GetEnv
      → Args
      → CliVars
      → LogState
      → Finish engine
  unfolding run_configured
  main_with log_opens failure ended files getenv args vars log =
      elim (startup files getenv args vars) [
        | exits rc text ↦ record { exit = returns rc; log = log; server = none; deadline = none }
        | continues setup ↦ run_configured log_opens failure ended setup log
      ]

  -- `main`.
  unfoldable pub server_main :
      Posix → (Bytes → IniFile) → GetEnv → Args → CliVars → LogState → List Event → Finish engine
  unfolding main_with exec setup_signal_handlers
  server_main os files getenv args vars log events =
      main_with os.log_opens (setup_signal_handlers os) (has (exec os.room events no_signals)) files
        getenv args vars log
