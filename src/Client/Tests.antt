-- ===== src/Client/Tests.antt =====
-- Runs of the client (src/client/RemSvcClient.cc, src/client/RemSvcMain.cc).
use rem_svc.Base.{
  bytes_eq, ℕ, List, [], ◌∷◌, none, some, true, false, Bytes, codes, is_empty, if◌then◌else◌,
  for_all, ◌≡◌, refl, arith,
}
use rem_svc.Base.Int.{ℤ, pos}
use rem_svc.Proto.{status_ok, empty_res}
use rem_svc.Policy.{check_allowed}
use rem_svc.Service.Stream.{run_all}
use rem_svc.Client.{do_rem_cmd, Stub, Credentials, insecure, do_rem_cmd_strm}
use rem_svc.Client.EndToEnd.{Wire, wire_stub, requests, allowed_prefix, do_rem_cmd_strm_delivered}
use rem_svc.Client.Program.{ClientArgs, named, channel, client_program}
use rem_svc.Client.Session.{address, remote_effect, client_program_delivered}
use rem_svc.Cli.{given, configure_cli}
use rem_svc.Logging.{LogState, info, init_logging, start_logging}
use rem_svc.Samples.{
  text_engine, policy, echo, idle, unset_vars, disk, files, home_only, with_config, setup, up,
  starts, builds, documented, runners,
}
use rem_svc.Client.Guarded.{guarded_stub, do_rem_cmd_unauthenticated}
use rem_svc.Service.{State}

abbrev wire : Wire (List Bytes)
wire = record { state = idle; sent = []; inbox = []; status = status_ok }

abbrev midnight : ℕ → ℤ × Bytes
midnight n = (pos 0, [])

-- `RemSvcClient --ping 2 --cmd "ls a" --user alice`.
abbrev args : ClientArgs
args = record {
  common = record {
    parse_error = false;
    version = false;
    app_name = codes "RemSvcClient";
    log_file = none;
    debug = none;
    log_level = none;
  };
  server = none;
  port = none;
  ping = some (pos 2);
  cmd = some (codes "ls a");
  user = some (codes "alice");
  tls = none;
  ca_cert = none;
}

abbrev connect : Credentials → Bytes → Wire (List Bytes)
connect creds target = wire

abbrev fresh : LogState
fresh = record {
  allowed_debug_level = pos 10;
  log_file_name = [];
  log_sinks = [];
  main_logger = none;
}

parses : (configure_cli args.common unset_vars).0 ≡ pos 0
unfolding configure_cli
parses = refl

abbrev logged : LogState
logged = init_logging (named args unset_vars) info fresh

writes : start_logging (λ file. true) (named args unset_vars) info fresh ≡ some logged
unfolding start_logging named bytes_eq
writes = refl

opens : channel disk args ≡ some insecure
unfolding channel
opens = refl

client_program_delivered_example :
    let left =
      client_program
        (wire_stub policy echo 0 5)
        connect
        disk
        (λ file. true)
        midnight
        args
        unset_vars
        fresh in
    let effect =
      remote_effect policy echo
        (connect insecure (address args))
        (given args.cmd [])
        (given args.user []) in
    (left.transport ≡ some effect.0) × (left.rc ≡ some effect.1) × (left.log.main_logger ≡ none)
client_program_delivered_example =
    client_program_delivered policy echo 0 5 midnight connect disk (λ file. true) args unset_vars
      fresh logged insecure parses writes opens

abbrev commands : List Bytes
commands = codes "ls a" ∷ codes "rm b" ∷ codes "ls c" ∷ []

do_rem_cmd_strm_delivered_example :
    let run = requests (allowed_prefix policy commands) (pos 0) [] 0 in
    let rc =
      if for_all (λ cmd. is_empty (check_allowed text_engine policy cmd)) commands
      then pos 0
      else pos 1 in
    (t' : Wire (List Bytes)) × (do_rem_cmd_strm
        (wire_stub policy echo 0 5)
        4
        wire
        commands
        (pos 0)
        []
      ≡ some (t', rc))
    × (t'.state ≡ (run_all echo wire.state run).0)
do_rem_cmd_strm_delivered_example =
    do_rem_cmd_strm_delivered policy echo 0 5 4 wire commands (pos 0) [] (omega arith)

-- The other calls of this stub are out of reach.
abbrev silent : Stub (State (List Bytes))
silent = record {
  now = λ t. 0;
  ping =
      λ t ctx msg. (t, status_ok, record { seq = msg.seq; time = msg.time; payload = msg.payload });
  get_status = λ t ctx. (t, status_ok, record { rc = pos 0; msg = [] });
  rem_cmd = λ t ctx req. (t, status_ok, empty_res);
  open_stream = λ t ctx. t;
  write = λ t req. (t, false);
  writes_done = λ t. t;
  read = λ t. (t, none);
  finish = λ t. (t, status_ok);
}

do_rem_cmd_unauthenticated_example :
    do_rem_cmd (guarded_stub runners up documented silent) idle (codes "ls") (pos 0) (pos 0) []
    ≡ (idle, pos 1)
do_rem_cmd_unauthenticated_example =
    do_rem_cmd_unauthenticated runners files home_only with_config unset_vars disk true setup up
      starts builds documented silent idle (codes "ls") (pos 0) (pos 0) [] refl
