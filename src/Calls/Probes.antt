-- ===== src/Calls/Probes.antt =====
-- The calls that run no command, `Ping` and `GetStatus`, to the server that src/server/RemSvcServer.cc
-- and src/server/GrpcServerThread.cc put together.
use rem_svc.Base.{
  ℕ, Option, none, some, Bool, false, Bytes, is_empty, ◌≡◌, ◌⊎◌, refl, if◌then◌else◌, Bool-cases,
  inl, inr,
}
use rem_svc.Base.Int.{ℤ}
use rem_svc.Base.Maps.{TextMap}
use rem_svc.Proto.{PingMsg, PongMsg, StatusMsg, status_ok, is_ok}
use rem_svc.Policy.{RegexEngine}
use rem_svc.Env.{GetEnv}
use rem_svc.Config.{IniFile}
use rem_svc.Logging.{CliVars}
use rem_svc.Service.{State, CmdRunner, get_status, ping}
use rem_svc.Server.{Args, Setup, continues, startup, GrpcServer, started, make_server}
use rem_svc.Calls.{Grpc, call_ping, call_get_status}
use rem_svc.Calls.Access.{Presents, verdict, call-verdict, asks, Presents-authenticate}

module _ {engine : RegexEngine} {W : Type 0} (runners : ℤ → CmdRunner W) (files : Bytes → IniFile)
    (getenv : GetEnv) (args : Args) (vars : CliVars) (disk : Bytes → Option Bytes) (builds : Bool)
    (setup : Setup) (srv : GrpcServer engine)
    (up : startup files getenv args vars ≡ continues setup)
    (built : make_server engine disk builds setup ≡ started srv) (md : TextMap) (s : State W) where
  call_ping-authenticate :
      (grpc : Grpc (State W) PongMsg) (msg : PingMsg)
      → let st = verdict setup.auth_tokens md in
        call_ping srv grpc md s msg
        ≡ (if is_ok st then (s, status_ok, some (ping msg).1) else (s, st, none))
  unfolding call_ping ping
  call_ping-authenticate grpc msg =
      call-verdict runners files getenv args vars disk builds setup srv up built md s grpc
        λ (t : State W). let (st, pong) = ping msg in (t, st, pong)

  call_get_status-authenticate :
      (grpc : Grpc (State W) StatusMsg) (start_time now : ℕ)
      → let st = verdict setup.auth_tokens md in
        call_get_status srv grpc start_time now md s
        ≡ (if is_ok st then (s, status_ok, some (get_status start_time now s).1) else (s, st, none))
  unfolding call_get_status get_status
  call_get_status-authenticate grpc start_time now =
      call-verdict runners files getenv args vars disk builds setup srv up built md s grpc
        λ (t : State W). let (st, res) = get_status start_time now t in (t, st, res)

  -- For a server that comes up with at least one token in its configuration, and any metadata: calls of
  -- `Ping` and of `GetStatus` change nothing, and either both are answered, the one by the echo of its
  -- message and the other by the report, and then the metadata show "Bearer " and a token that a
  -- configured identity has, or both get no answer and the same status, which is not OK.
  pub call_probes-Presents :
      (pings : Grpc (State W) PongMsg) (reports : Grpc (State W) StatusMsg) (msg : PingMsg)
      (start_time now : ℕ)
      → is_empty setup.auth_tokens ≡ false
      → let (s1, st1, pong) = call_ping srv pings md s msg in
        let (s2, st2, report) = call_get_status srv reports start_time now md s in
        (s1 ≡ s)
        × (s2 ≡ s)
        × ((Presents setup.auth_tokens md
              × (pong ≡ some (record { seq = msg.seq; time = msg.time; payload = msg.payload }))
              × (report ≡ some (get_status start_time now s).1))
            ⊎ ((pong ≡ none) × (report ≡ none) × (st1 ≡ st2) × (is_ok st1 ≡ false)))
  call_probes-Presents pings reports msg start_time now some_token =
      let asked =
        asks runners files getenv args vars disk builds setup srv up built md s some_token in
      let pinged = call_ping-authenticate pings msg in
      let told = call_get_status-authenticate reports start_time now in
      elim (Bool-cases (is_ok (verdict setup.auth_tokens md))) [
        | inl opened ↦
            rw (pinged, told, opened)
              (
                refl,
                refl,
                inl (
                  Presents-authenticate setup.auth_tokens md asked opened,
                  unfold ping in refl,
                  refl,
                ),
              )
        | inr shut ↦ rw (pinged, told, shut) (refl, refl, inr (refl, refl, refl, shut))
      ]
