-- ===== src/Client/Session.antt =====
-- A run of the client program (src/client/RemSvcMain.cc) against the service without authentication,
-- over a transport that delivers every message in time.
use rem_svc.Base.{
  Bool, ℕ, zero, suc, [], ◌∷◌, ◌++◌, codes, Option, none, some, Bytes, is_empty, if◌then◌else◌, ◌≡◌,
  refl, ◌∙◌, arith,
}
use rem_svc.Base.Int.{ℤ, int_text, pos, negsuc, is_nonzero}
use rem_svc.Proto.{RemCmdMsg}
use rem_svc.Crc.{crc32_hex}
use rem_svc.Policy.{RegexEngine, Policy, check_allowed}
use rem_svc.Service.{CmdRunner}
use rem_svc.Service.Execute.{run_one}
use rem_svc.Logging.{CliVars, LogState, info, start_logging, term_logging}
use rem_svc.Cli.{given, configure_cli}
use rem_svc.Client.{Stub, make_request, do_ping, do_rem_cmd, ping_loop, client_main, Credentials}
use rem_svc.Client.EndToEnd.{Wire, wire_stub, do_rem_cmd_delivered}
use rem_svc.Client.Program.{ClientArgs, named, target, channel, run_client, client_program}

-- The server that the options name.
abbrev pub address : ClientArgs → Bytes
address args =
    given args.server (codes "localhost") ++ b':' ∷ int_text (given args.port (pos 50051))

-- The request that a command must arrive as: with its user's name, its hash, and nothing else.
abbrev pub plain_request : Bytes → Bytes → RemCmdMsg
plain_request cmd cmdusr = record {
  cmd = cmd;
  cmdtyp = pos 0;
  cmdusr = cmdusr;
  tid = pos 0;
  src = [];
  hsh = crc32_hex cmd;
}

make_request-plain_request :
    (cmd cmdusr : Bytes) → make_request cmd (pos 0) (pos 0) cmdusr ≡ plain_request cmd cmdusr
unfolding make_request
make_request-plain_request cmd [] = refl
make_request-plain_request cmd (c ∷ cmdusr) = refl

-- What the command does to the server, and the exit code.
pub remote_effect :
    {engine : RegexEngine} {W : Type 0}
    → Policy engine
    → CmdRunner W
    → Wire W
    → Bytes
    → Bytes
    → Wire W × ℤ
remote_effect {engine = engine} policy runner t cmd cmdusr =
    let (s, res) = run_one runner t.state (plain_request cmd cmdusr) in
    if is_empty cmd
    then (t, pos 0)
    else if is_empty (check_allowed engine policy cmd)
    then (record t { state = s }, res.rc)
    else (t, pos 1)

module _ {engine : RegexEngine} {W : Type 0} (policy : Policy engine) (runner : CmdRunner W)
    (start_time answered_at : ℕ) (now : ℕ → ℤ × Bytes) where
  abbrev pub service : Stub (Wire W)
  service = wire_stub policy runner start_time answered_at

  do_ping_wire :
      (t : Wire W) (at : ℤ) (iso : Bytes) (seq : ℤ) → (do_ping service at iso t seq).0 ≡ t
  unfolding do_ping
  do_ping_wire t at iso seq = ground arith

  -- The server answers the pings without a change of its state.
  ping_loop_wire : (n : ℕ) (t : Wire W) → ping_loop service now n t ≡ t
  unfolding ping_loop
  ping_loop_wire zero t = refl
  ping_loop_wire (suc n) t = ping_loop_wire n _ ∙ do_ping_wire t _ _ _

  client_main_wire :
      (count : ℤ) (cmd cmdusr : Bytes) (t : Wire W)
      → client_main service now count cmd cmdusr t
        ≡ (if is_empty cmd then (t, pos 0) else do_rem_cmd service t cmd (pos 0) (pos 0) cmdusr)
  unfolding client_main
  client_main_wire (pos n) cmd cmdusr t = rw (ping_loop_wire n t) refl
  client_main_wire (negsuc n) cmd cmdusr t = refl

  client_main-remote_effect :
      (count : ℤ) (cmd cmdusr : Bytes) (t : Wire W)
      → client_main service now count cmd cmdusr t ≡ remote_effect policy runner t cmd cmdusr
  unfolding remote_effect
  client_main-remote_effect count cmd cmdusr t = rw (client_main_wire count cmd cmdusr t) (
      rw
        (
          do_rem_cmd_delivered policy runner start_time answered_at t cmd (pos 0) (pos 0) cmdusr,
          make_request-plain_request cmd cmdusr,
        )
        refl)

  module _ (connect : Credentials → Bytes → Wire W) (disk : Bytes → Option Bytes)
      (opens : Bytes → Bool) where
    -- Against a server without authentication, over a transport where no call fails and no deadline
    -- passes, and where the options parse, the logging starts and the CA's file opens: the program
    -- connects to the server and the port that are named, else to localhost:50051, the pings leave
    -- the server as it is, and the command is run once, for the user that is named, where there is
    -- one and the access lists allow it, and nothing is run otherwise. The program returns the
    -- command's exit code, 1 for a command that is refused and 0 without a command, with no logger
    -- left.
    pub client_program_delivered :
        (args : ClientArgs) (vars : CliVars) (log logged : LogState) (creds : Credentials)
        → (configure_cli args.common vars).0 ≡ pos 0
        → start_logging opens (named args vars) info log ≡ some logged
        → channel disk args ≡ some creds
        → let left = client_program service connect disk opens now args vars log in
          let effect =
            remote_effect policy runner
              (connect creds (address args))
              (given args.cmd [])
              (given args.user []) in
          (left.transport ≡ some effect.0)
          × (left.rc ≡ some effect.1)
          × (left.log.main_logger ≡ none)
    unfolding term_logging target
    client_program_delivered args vars log logged creds parsed writes opened =
        let effect =
          client_main-remote_effect (given args.ping (pos 0)) (given args.cmd [])
            (given args.user []) (connect creds (address args)) in
        unfold client_program in
        rw (parsed, is_nonzero, writes, run_client, opened, effect) (refl, refl, refl)
