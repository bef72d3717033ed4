-- ===== src/Lifecycle/Shutdown.antt =====
-- When the server ends (src/server/RemSvcServer.cc), and how.
use mathlib.Core.Bool.{false≢true}
use rem_svc.Base.{
  ℕ, zero, suc, ◌<◌, ◌^◌, ◌-◌, List, [], ◌∷◌, Option, none, some, Bool, true, false, ◌||◌, ltb,
  ◌==◌, Bytes, ◌≡◌, ◌≢◌, ◌⊎◌, inl, inr, ◌↔◌, refl, sym, ap, ◌∙◌, arith, Bool-cases, Option-cases,
}
use rem_svc.Base.Int.{ℤ, pos, negsuc, ◌≤ℤ◌, ◌<ℤ◌}
use rem_svc.Env.{GetEnv}
use rem_svc.Policy.{RegexEngine}
use rem_svc.Config.{IniFile}
use rem_svc.Logging.{CliVars, LogState, info, start_logging, term_logging}
use rem_svc.Server.{
  Args, Setup, Startup, exits, continues, startup, GrpcServer, Construction, raises, started,
  make_server,
}
use rem_svc.Signals.{Pipe, no_signals, on_signal, handle_signal}
use rem_svc.Lifecycle.{
  Event, signal, wakeup, exec, has, main_with, to_int64, double, shift, shutdown_deadline, Exit,
  returns, aborts, serves, logging_fails, Finish, Posix, serve, run_logged, run_configured,
  server_main, setup_signal_handlers,
}

-- A signal, and later a look at the notifier; or only that, if a byte is there from the start.
unfoldable pub answered : Bool → List Event → Bool
answered waiting [] = false
answered waiting (signal ∷ events) = answered true events
answered waiting (wakeup ∷ events) = waiting || answered waiting events

on_signal_waits : (room : ℕ) (p : Pipe) → 0 < room → 0 < (on_signal room p).bytes
unfolding on_signal
on_signal_waits room p h = ground arith

quits-on_signal : (room : ℕ) (p : Pipe) → (on_signal room p).quits ≡ p.quits
unfolding on_signal
quits-on_signal room p = ground arith

quits-handle_signal : (p : Pipe) → (handle_signal p).quits ≡ suc p.quits
unfolding handle_signal
quits-handle_signal p = ground arith

-- The event loop ends exactly if a waiting signal is noticed, and with the first request to quit.
abbrev EndsWith : ℕ → Bool → Option Pipe → Type 0
EndsWith quits true o = (p : Pipe) × (o ≡ some p) × (p.quits ≡ quits)
EndsWith quits false o = o ≡ none

exec-answered :
    (room : ℕ) (events : List Event) (p : Pipe) (waiting : Bool) (quits : ℕ)
    → 0 < room
    → ltb 0 p.bytes ≡ waiting
    → p.quits ≡ quits
    → EndsWith (suc quits) (answered waiting events) (exec room events p)
unfolding exec answered
exec-answered room [] p waiting quits h e q = refl
exec-answered room (signal ∷ events) p waiting quits h e q =
    exec-answered room events (on_signal room p) true quits h
      (ground (arith, on_signal_waits room p h)) (quits-on_signal room p ∙ q)
exec-answered room (wakeup ∷ events) p true quits h e q =
    let some_byte : (p.bytes == 0) ≡ false = ground arith in
    let emitted : ltb p.quits (handle_signal p).quits ≡ true =
      ground (arith, quits-handle_signal p) in
    rw (some_byte, emitted) (handle_signal p, refl, quits-handle_signal p ∙ ap suc q)
exec-answered room (wakeup ∷ events) p false quits h e q =
    let no_byte : (p.bytes == 0) ≡ true = ground arith in
    rw no_byte (exec-answered room events p false quits h e q)

has-EndsWith : (quits : ℕ) (b : Bool) (o : Option Pipe) → EndsWith quits b o → has o ≡ b
has-EndsWith quits true o (p, e, q) = rw e refl
has-EndsWith quits false o e = rw e refl

has-exec :
    (room : ℕ) (events : List Event)
    → 0 < room
    → has (exec room events no_signals) ≡ answered false events
has-exec room events h =
    has-EndsWith 1 (answered false events) (exec room events no_signals)
      (exec-answered room events no_signals false 0 h refl refl)

startup-exits :
    (files : Bytes → IniFile) (getenv : GetEnv) (args : Args) (vars : CliVars) (rc : ℤ)
    (text : Bytes)
    → startup files getenv args vars ≡ exits rc text
    → rc ≡ pos 1
unfolding startup
startup-exits files getenv args vars rc text h = ground arith

Startup-cases :
    (s : Startup)
    → ((rc : ℤ) × (text : Bytes) × (s ≡ exits rc text)) ⊎ ((setup : Setup) × (s ≡ continues setup))
Startup-cases (exits rc text) = inl (rc, text, refl)
Startup-cases (continues setup) = inr (setup, refl)

Construction-cases :
    {engine : RegexEngine} (c : Construction engine)
    → ((text : Bytes) × (c ≡ raises text)) ⊎ ((srv : GrpcServer engine) × (c ≡ started srv))
Construction-cases (raises text) = inl (text, refl)
Construction-cases (started srv) = inr (srv, refl)

some-injective : (a b : ℤ) → some a ≡ some b → a ≡ b
some-injective a b e = cc

abbrev is_done : Exit → Bool
is_done (returns (pos zero)) = true
is_done (returns rc) = false
is_done (aborts text) = false
is_done logging_fails = false
is_done serves = false

module _ (engine : RegexEngine) (disk : Bytes → Option Bytes) (builds : Bool) (stopped_at : ℕ)
    (files : Bytes → IniFile) (getenv : GetEnv) (args : Args) (vars : CliVars)
    (log : LogState) where
  -- The end of `main`, or the running server.
  abbrev pub outcome : Setup → LogState → GrpcServer engine → Bool → Finish engine
  outcome setup logged srv true = record {
    exit = returns (pos 0);
    log = term_logging logged;
    server = some srv;
    deadline = some (shutdown_deadline stopped_at setup.cmd_timeout_ms);
  }
  outcome setup logged srv false = record {
    exit = serves;
    log = logged;
    server = some srv;
    deadline = none;
  }

  serve-outcome :
      (setup : Setup) (logged : LogState) (srv : GrpcServer engine) (ended : Bool)
      → serve engine disk builds stopped_at ended setup logged srv ≡ outcome setup logged srv ended
  unfolding serve
  serve-outcome setup logged srv true = refl
  serve-outcome setup logged srv false = refl

  -- A start that succeeds up to the event loop.
  pub main_with-outcome :
      (log_opens : Bytes → Bool) (ended : Bool) (setup : Setup) (logged : LogState)
      (srv : GrpcServer engine)
      → startup files getenv args vars ≡ continues setup
      → start_logging log_opens setup.cli info log ≡ some logged
      → make_server engine disk builds setup ≡ started srv
      → main_with engine disk builds stopped_at log_opens none ended files getenv args vars log
        ≡ outcome setup logged srv ended
  unfolding main_with run_configured run_logged
  main_with-outcome log_opens ended setup logged srv up opened built =
      rw (up, main_with, run_configured, opened, run_logged, built)
        (serve-outcome setup logged srv ended)

  -- What the start went through up to the end of the event loop.
  abbrev CameUp : (Bytes → Bool) → Option Bytes → Setup → LogState → GrpcServer engine → Type 0
  CameUp log_opens failure setup logged srv =
      (startup files getenv args vars ≡ continues setup)
      × (start_logging log_opens setup.cli info log ≡ some logged)
      × (failure ≡ none)
      × (make_server engine disk builds setup ≡ started srv)

  abbrev Ended : (Bytes → Bool) → Option Bytes → Bool → Type 0
  Ended log_opens failure ended =
      (setup : Setup) × (logged : LogState) × (srv : GrpcServer engine) × CameUp log_opens failure
        setup logged srv
      × (ended ≡ true)

  abbrev NotDone : Finish engine → Type 0
  NotDone f = (is_done f.exit ≡ false) × (f.deadline ≡ none)

  -- A start that fails on the way does not count as a return with 0.
  main_with-cases :
      (log_opens : Bytes → Bool) (failure : Option Bytes) (ended : Bool)
      → Ended log_opens failure ended
        ⊎ NotDone (
            main_with engine disk builds stopped_at log_opens failure ended files getenv args vars
              log)
  unfolding main_with run_configured run_logged serve
  main_with-cases log_opens failure ended = elim (Startup-cases (startup files getenv args vars)) [
    | inl (rc, text, e) ↦
        let one = startup-exits files getenv args vars rc text e in
        inr (rw (e, main_with, one) (refl, refl))
    | inr (setup, e) ↦ elim (Option-cases (start_logging log_opens setup.cli info log)) [
      | inl f ↦ inr (rw (e, main_with, f, run_configured) (refl, refl))
      | inr (logged, f) ↦ elim (Option-cases failure) [
        | inr (text, g) ↦ inr (rw (e, main_with, f, run_configured, g, run_logged) (refl, refl))
        | inl g ↦ elim (Construction-cases (make_server engine disk builds setup)) [
          | inl (text, c) ↦
              inr (rw (e, main_with, f, run_configured, g, run_logged, c) (refl, refl))
          | inr (srv, c) ↦ elim (Bool-cases ended) [
            | inl done ↦ inl (setup, logged, srv, (e, f, g, c), done)
            | inr running ↦ inr (
                rw (e, main_with, f, run_configured, g, run_logged, c, running, serve) (refl, refl))
          ]
        ]
      ]
    ]
  ]

  module _ (os : Posix) (events : List Event) where
    abbrev run_of_main : Finish engine
    run_of_main = server_main engine disk builds stopped_at os files getenv args vars log events

    -- The end of `main`, or the running server, behind a start that succeeds.
    pub server_main-answered :
        (setup : Setup) (logged : LogState) (srv : GrpcServer engine)
        → startup files getenv args vars ≡ continues setup
        → start_logging os.log_opens setup.cli info log ≡ some logged
        → setup_signal_handlers os ≡ none
        → make_server engine disk builds setup ≡ started srv
        → 0 < os.room
        → run_of_main ≡ outcome setup logged srv (answered false events)
    unfolding server_main
    server_main-answered setup logged srv up opened installed built h =
        rw (installed, has-exec os.room events h)
          (main_with-outcome os.log_opens (answered false events) setup logged srv up opened built)

    -- What the start came up with, and a signal that the event loop looked at.
    abbrev pub Served : Setup → Type 0
    Served setup =
        (logged : LogState) × (srv : GrpcServer engine) × CameUp os.log_opens
          (setup_signal_handlers os) setup logged srv
        × (answered false events ≡ true)

    -- Twice the timeout behind the time of the call, in 64 bits.
    abbrev pub at_twice : Setup → ℤ
    at_twice setup = shift stopped_at (to_int64 (double setup.cmd_timeout_ms))

    Served-outcome :
        (setup : Setup)
        → 0 < os.room
        → Served setup
        → (run_of_main.exit ≡ returns (pos 0))
          × (run_of_main.deadline ≡ some (at_twice setup))
          × (run_of_main.log.main_logger ≡ none)
          × (run_of_main.log.log_sinks ≡ [])
    unfolding shutdown_deadline term_logging
    Served-outcome setup h (logged, srv, (up, opened, installed, built), seen) =
        let run = server_main-answered setup logged srv up opened installed built h in
        rw (run, seen) (refl, refl, refl, refl)

    run-Served : 0 < os.room → ((setup : Setup) × Served setup) ⊎ NotDone run_of_main
    unfolding server_main
    run-Served h =
        elim (main_with-cases os.log_opens (setup_signal_handlers os)
          (has (exec os.room events no_signals))) [
            | inl (setup, logged, srv, up, ended) ↦
                inl (setup, (logged, srv, up, sym (has-exec os.room events h) ∙ ended))
            | inr not_done ↦ inr not_done
          ]

    -- Where the pipe has room: `main` returns 0 exactly if the start, the logging, the signal handlers
    -- and the server have come up, and a signal arrived that the event loop looked at later. The server
    -- is shut down with a deadline in exactly these runs, which is twice the timeout that the start
    -- has set behind the time of the call; and a run that returns 0 leaves no logger and no sink.
    pub server_main-Served :
        (d : ℤ)
        → 0 < os.room
        → ((run_of_main.exit ≡ returns (pos 0)) ↔ ((setup : Setup) × Served setup))
          × ((run_of_main.deadline ≡ some d)
              ↔ ((setup : Setup) × Served setup × (at_twice setup ≡ d)))
          × ((run_of_main.exit ≢ returns (pos 0))
              ⊎ ((run_of_main.log.main_logger ≡ none) × (run_of_main.log.log_sinks ≡ [])))
    server_main-Served d h = elim (run-Served h) [
      | inl (setup, served) ↦
          let (returned, shut, no_logger, no_sinks) = Served-outcome setup h served in
          (
            (λ e. (setup, served), λ (setup', served'). returned),
            (
              λ e. (setup, served, some-injective _ _ (sym shut ∙ e)),
              λ (setup', served', at). (Served-outcome setup' h served').1 ∙ ap some at,
            ),
            inr (no_logger, no_sinks),
          )
      | inr (running, no_deadline) ↦
          let not_zero : run_of_main.exit ≢ returns (pos 0) =
            λ e. false≢true (sym running ∙ ap is_done e) in
          (
            (λ e. absurd (not_zero e), λ (setup, served). (Served-outcome setup h served).0),
            (
              λ e. absurd (false≢true (sym (ap has no_deadline) ∙ ap has e)),
              λ (setup, served, at). (Served-outcome setup h served).1 ∙ ap some at,
            ),
            inl not_zero,
          )
    ]

-- A number that an `int` holds.
pub record IsInt32 (t : ℤ) : Type 0 where
  pub low : negsuc (2 ^ 31 - 1) ≤ℤ t
  pub high : t ≤ℤ pos (2 ^ 31 - 1)

to_int64-double : (t : ℤ) → IsInt32 t → to_int64 (double t) ≡ double t
to_int64-double (pos n) b = ground arith
to_int64-double (negsuc n) b = ground arith

later : (now : ℕ) (t : ℤ) → pos 1 ≤ℤ t → shift now t <ℤ shift now (double t)
later now (pos n) h = omega arith
later now (negsuc n) h = absurd (omega arith)

earlier : (now : ℕ) (t : ℤ) → t <ℤ pos 0 → shift now (double t) <ℤ pos now
earlier now (pos n) h = absurd (omega arith)
earlier now (negsuc n) h = ground arith

-- The deadline of the shutdown does not overflow: it is twice the timeout away from the time of the
-- call. So for a positive timeout it is later than that of a command that starts then, and for a
-- negative one, which only the flag --cmd-timeout-ms gives, it has passed already.
pub shutdown_deadline_lem :
    (now : ℕ) (t : ℤ)
    → IsInt32 t
    → (shutdown_deadline now t ≡ shift now (double t))
      × (pos 1 ≤ℤ t → shift now t <ℤ shutdown_deadline now t)
      × (t <ℤ pos 0 → shutdown_deadline now t <ℤ pos now)
unfolding shutdown_deadline
shutdown_deadline_lem now t b = rw (to_int64-double t b) (refl, later now t, earlier now t)
