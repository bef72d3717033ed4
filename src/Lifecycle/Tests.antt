-- ===== src/Lifecycle/Tests.antt =====
-- Runs of the whole server (src/server/RemSvcServer.cc).
use rem_svc.Base.{
  List, [], ◌∷◌, none, some, true, false, codes, bytes_eq, ◌≡◌, ◌≢◌, ◌⊎◌, ◌↔◌, refl, arith,
}
use rem_svc.Base.Int.{ℤ, int_text, pos, negsuc}
use rem_svc.Logging.{LogState, info, init_logging, start_logging, default_log_file_name}
use rem_svc.Policy.{make_policy}
use rem_svc.Server.{Setup, continues, startup, GrpcServer, insecure, started, make_server}
use rem_svc.Lifecycle.{Event, signal, wakeup, Posix, returns, setup_signal_handlers, server_main}
use rem_svc.Lifecycle.Shutdown.{answered, Served, at_twice, server_main-Served, IsInt32}
use rem_svc.Samples.{text_engine, files, home_only, no_args, unset_vars, disk}

abbrev working : Posix
working = record {
  pipe_made = true;
  sigint_installed = true;
  sigterm_installed = true;
  room = 4;
  log_opens = λ file. true;
}

abbrev fresh : LogState
fresh = record {
  allowed_debug_level = pos 10;
  log_file_name = [];
  log_sinks = [];
  main_logger = none;
}

abbrev setup : Setup
setup = record {
  port = pos 50051;
  tls_config = none;
  allowlist = [];
  denylist = [];
  auth_tokens = [];
  cmd_timeout_ms = pos 30000;
  cli = record { log_file = codes "RemSvcServer.log"; log_level = []; dbg_level = negsuc 0 };
}

starts : startup files home_only no_args unset_vars ≡ continues setup
unfolding startup bytes_eq default_log_file_name
starts = refl

abbrev plain : GrpcServer text_engine
plain = record {
  address = codes "0.0.0.0:50051";
  credentials = insecure;
  auth_processor = none;
  policy = record { allowlist = []; denylist = []; deny_all = false };
  cmd_timeout_ms = pos 30000;
}

comes_up : make_server text_engine disk true setup ≡ started plain
unfolding make_server make_policy int_text
comes_up = refl

installed : setup_signal_handlers working ≡ none
unfolding setup_signal_handlers
installed = refl

abbrev logged : LogState
logged = init_logging setup.cli info fresh

opened : start_logging working.log_opens setup.cli info fresh ≡ some logged
unfolding start_logging
opened = refl

-- The loop looks at the notifier before and after the signal.
abbrev events : List Event
events = wakeup ∷ signal ∷ wakeup ∷ []

-- The event loop ends.
answered-events : answered false events ≡ true
unfolding answered
answered-events = refl

-- The deadline of the shutdown: twice the timeout behind the time of the call.
abbrev at : ℤ
at = pos 60007

server_main-Served_example :
    let run =
      server_main text_engine disk true 7 working files home_only no_args unset_vars fresh events in
    let Served =
      Served text_engine disk true 7 files home_only no_args unset_vars fresh working events in
    let at_twice =
      at_twice text_engine disk true 7 files home_only no_args unset_vars fresh working events in
    ((run.exit ≡ returns (pos 0)) ↔ ((setup : Setup) × Served setup))
    × ((run.deadline ≡ some at) ↔ ((setup : Setup) × Served setup × (at_twice setup ≡ at)))
    × ((run.exit ≢ returns (pos 0)) ⊎ ((run.log.main_logger ≡ none) × (run.log.log_sinks ≡ [])))
server_main-Served_example =
    server_main-Served text_engine disk true 7 files home_only no_args unset_vars fresh working
      events at (omega arith)

-- The run is one of them.
served :
    Served text_engine disk true 7 files home_only no_args unset_vars fresh working events setup
served = (logged, plain, (starts, opened, installed, comes_up), answered-events)

half_minute : IsInt32 (pos 30000)
half_minute = omega arith
