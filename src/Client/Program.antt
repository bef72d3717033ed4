-- ===== src/Client/Program.antt =====
-- The whole `main` of src/client/RemSvcMain.cc. Creating the channel is a parameter: it gives the
-- transport for the credentials and the target's text.
use rem_svc.Base.{ℕ, [], ◌∷◌, ◌++◌, Option, none, some, Bool, false, Bytes, codes, if◌then◌else◌}
use rem_svc.Base.Int.{ℤ, pos, is_nonzero, int_text}
use rem_svc.Logging.{
  CliVars, LogState, info, default_log_file_name, left_logging, start_logging, term_logging,
}
use rem_svc.Cli.{CommonArgs, given, configure_cli}
use rem_svc.Client.{Stub, client_main, Credentials, choose_channel}

-- What was given of the options of `main`.
pub record ClientArgs : Type 0 where
  pub common : CommonArgs
  pub server : Option Bytes
  pub port : Option ℤ
  pub ping : Option ℤ
  pub cmd : Option Bytes
  pub user : Option Bytes
  pub tls : Option Bool
  pub ca_cert : Option Bytes

-- The exit code, unless an exception of the logging library ends the program, the globals of the logging,
-- and the transport if a channel was created.
pub record ClientFinish (T : Type 0) : Type 0 where
  pub rc : Option ℤ
  pub log : LogState
  pub transport : Option T

-- `format("{}:{}", server, port)`
unfoldable pub target : ClientArgs → Bytes
target args = given args.server (codes "localhost") ++ b':' ∷ int_text (given args.port (pos 50051))

-- The credentials that the options ask for, if the CA's file opens.
unfoldable pub channel : (Bytes → Option Bytes) → ClientArgs → Option Credentials
unfolding choose_channel
channel disk args = choose_channel disk (given args.tls false) (given args.ca_cert [])

-- The variables of the logging: `CliLogFile` is set to the default name, also where --log-file was given.
unfoldable pub named : ClientArgs → CliVars → CliVars
unfolding configure_cli default_log_file_name
named args vars = record (configure_cli args.common vars).1 {
  log_file = default_log_file_name args.common.app_name;
}

module _ {T : Type 0} (stub : Stub T) (connect : Credentials → Bytes → T)
    (disk : Bytes → Option Bytes) (opens : Bytes → Bool) (now : ℕ → ℤ × Bytes) where
  -- Behind `InitLogging`.
  unfoldable pub run_client : ClientArgs → LogState → ClientFinish T
  unfolding target channel client_main
  run_client args log = elim (channel disk args) [
    | none ↦ record { rc = some (pos 1); log = log; transport = none }
    | some creds ↦
        let (t, rc) =
          client_main stub now (given args.ping (pos 0)) (given args.cmd []) (given args.user [])
            (connect creds (target args)) in
        record { rc = some rc; log = term_logging log; transport = some t }
  ]

  -- `main`
  unfoldable pub client_program : ClientArgs → CliVars → LogState → ClientFinish T
  unfolding configure_cli run_client named start_logging left_logging
  client_program args vars log =
      let rc = (configure_cli args.common vars).0 in
      if is_nonzero rc
      then record { rc = some rc; log = log; transport = none }
      else elim (start_logging opens (named args vars) info log) [
        | none ↦ record {
          rc = none;
          log = left_logging opens (named args vars) info log;
          transport = none;
        }
        | some logged ↦ run_client args logged
      ]
