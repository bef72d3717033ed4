-- ===== src/Client/Guarded.antt =====
-- The client of src/client/RemSvcClient.cc, which attaches no metadata to its calls, against the server
-- that src/server/GrpcServerThread.cc puts together.
use rem_svc.Base.{[], Option, false, Bool, Bytes, is_empty, ◌≡◌, refl}
use rem_svc.Base.Int.{ℤ, pos}
use rem_svc.Cli.{given}
use rem_svc.Proto.{RemResMsg, is_ok, empty_res}
use rem_svc.Env.{GetEnv}
use rem_svc.Config.{IniFile}
use rem_svc.Logging.{CliVars}
use rem_svc.Policy.{RegexEngine}
use rem_svc.Service.{State, CmdRunner}
use rem_svc.Server.{Args, Setup, continues, startup, GrpcServer, started, make_server}
use rem_svc.Calls.{Grpc, call_rem_cmd}
use rem_svc.Calls.Access.{verdict, call_rem_cmd-authenticate, silent_refused}
use rem_svc.Client.{Stub, make_request, do_rem_cmd}

-- A stub whose `RemCmd` is a call to the server without metadata; its other calls are those of `rest`.
abbrev pub guarded_stub :
    {engine : RegexEngine} {W : Type 0}
    → (ℤ → CmdRunner W)
    → GrpcServer engine
    → Grpc (State W) RemResMsg
    → Stub (State W)
    → Stub (State W)
guarded_stub runners srv grpc rest = record rest {
  rem_cmd = λ s ctx req.
      let (s', st, res) = call_rem_cmd runners srv grpc [] s req in (s', st, given res empty_res);
}

module _ {engine : RegexEngine} {W : Type 0} (runners : ℤ → CmdRunner W) (files : Bytes → IniFile)
    (getenv : GetEnv) (args : Args) (vars : CliVars) (disk : Bytes → Option Bytes) (builds : Bool)
    (setup : Setup) (srv : GrpcServer engine)
    (up : startup files getenv args vars ≡ continues setup)
    (built : make_server engine disk builds setup ≡ started srv) where
  -- Against a server that comes up with at least one token in its configuration, `doRemCmd` runs
  -- nothing, whatever the command: the server is left as it was and the result is 1.
  pub do_rem_cmd_unauthenticated :
      (grpc : Grpc (State W) RemResMsg) (rest : Stub (State W)) (s : State W) (cmd : Bytes)
      (cmdtyp tid : ℤ) (cmdusr : Bytes)
      → is_empty setup.auth_tokens ≡ false
      → do_rem_cmd (guarded_stub runners srv grpc rest) s cmd cmdtyp tid cmdusr ≡ (s, pos 1)
  do_rem_cmd_unauthenticated grpc rest s cmd cmdtyp tid cmdusr some_token =
      let req = make_request cmd cmdtyp tid cmdusr in
      let result =
        call_rem_cmd-authenticate runners files getenv args vars disk builds setup srv up built [] s
          grpc req in
      let shut : is_ok (verdict setup.auth_tokens []) ≡ false =
        silent_refused runners files getenv args vars disk builds setup srv up built [] s
          some_token in
      unfold do_rem_cmd in rw result (rw shut (rw shut refl))
