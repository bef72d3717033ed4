-- ===== src/Calls/Access.antt =====
-- Who gets through to the handlers of the server that src/server/RemSvcServer.cc and
-- src/server/GrpcServerThread.cc put together.
use rem_svc.Base.{
  List, [], ◌∷◌, ◌++◌, Option, none, some, Bool, true, false, Bytes, is_empty, ◌≡◌, ◌∙◌, refl, ap,
  not, arith, if◌then◌else◌, Bool-cases, inl, inr,
}
use rem_svc.Base.Int.{ℤ}
use rem_svc.Base.Maps.{TextMap, lookup}
use rem_svc.Proto.{RemCmdMsg, RemResMsg, Status, status_ok, is_ok, empty_res}
use rem_svc.Auth.{Processed, auth_header, bearer_prefix, make_processor, is_enabled, process}
use rem_svc.Auth.Lookup.{owner, has_no_tokens, is_empty-make_processor}
use rem_svc.Auth.Decision.{authenticate, process-authenticate, process_sound}
use rem_svc.Policy.{RegexEngine, Policy, make_policy}
use rem_svc.Env.{GetEnv}
use rem_svc.Config.{IniFile}
use rem_svc.Logging.{CliVars}
use rem_svc.Service.{State, CmdRunner, rem_cmd, process_stream}
use rem_svc.Service.Execute.{accepts, refusal, run_one, rem_cmd-run_one}
use rem_svc.Service.Stream.{accepted, ending, run_all, process_stream-run_all}
use rem_svc.Server.{Args, Setup, continues, startup, GrpcServer, started, make_server}
use rem_svc.Server.Guard.{has_tls, startup-has_tls, make_server_security, startup_authenticates}
use rem_svc.Calls.{Grpc, fresh_context, attached_processor, call_rem_cmd, call_stream}

-- What the metadata of a call show: "Bearer " and a token that an identity of the map has.
pub record Presents (config : TextMap) (md : TextMap) : Type 0 where
  pub token : Bytes
  pub identity : Bytes
  pub carried : lookup auth_header md ≡ some (bearer_prefix ++ token)
  pub owned : owner token config ≡ some identity

make_server-policy :
    {engine : RegexEngine} (disk : Bytes → Option Bytes) (builds : Bool) (setup : Setup)
    (srv : GrpcServer engine)
    → make_server engine disk builds setup ≡ started srv
    → (srv.policy ≡ make_policy engine setup.allowlist setup.denylist)
      × (srv.cmd_timeout_ms ≡ setup.cmd_timeout_ms)
unfolding make_server
make_server-policy disk builds setup srv h = (ground arith, ground arith)

-- The status that the configuration demands for a call with these metadata.
abbrev pub verdict : TextMap → TextMap → Status
verdict config md = (authenticate config md fresh_context []).0

process-verdict :
    (config md : TextMap)
    → (process (make_processor config) md fresh_context []).0 ≡ verdict config md
process-verdict config md =
    ap (λ (t : Processed). t.0) (process-authenticate config md fresh_context [])

run_all_idle :
    {W : Type 0} (runner : CmdRunner W) (s : State W) (reqs : List RemCmdMsg)
    → is_empty reqs ≡ true
    → (run_all runner s reqs).0 ≡ s
unfolding run_all
run_all_idle runner s [] h = refl
run_all_idle runner s (req ∷ reqs) h = cc

-- gRPC in front of a handler, with the processor of a map of identities.
module _ {S A : Type 0} (grpc : Grpc S A) (config md : TextMap) (s : S)
    (h : S → S × Status × A) where
  call-authenticate : grpc.call (attached_processor (some (make_processor config))) md s h ≡ (
      let (s', st, a) = h s in
      if is_ok (verdict config md) then (s', st, some a) else (s, verdict config md, none))
  call-authenticate =
      let p : TextMap → Status = λ m. (process (make_processor config) m fresh_context []).0 in
      elim (Bool-cases (is_ok (verdict config md))) [
        | inl opened ↦ rw opened (grpc.admitted p md s h (rw (process-verdict config md) opened))
        | inr shut ↦ rw shut (
            grpc.refused p md s h (rw (process-verdict config md) shut)
            ∙ ap (λ (st : Status). (s, st, none)) (process-verdict config md))
      ]

verdict_empty : (config md : TextMap) → is_empty config ≡ true → verdict config md ≡ status_ok
unfolding authenticate has_no_tokens
verdict_empty [] md h = refl
verdict_empty (entry ∷ config) md h = cc

-- Without metadata, a call gets through only where no identity has a token.
verdict_silent :
    (config : TextMap) → has_no_tokens config ≡ false → is_ok (verdict config []) ≡ false
unfolding authenticate lookup
verdict_silent config asks = rw (verdict, asks) refl

-- The processor of a map with a token in it lets through only calls that show one.
pub Presents-authenticate :
    (config md : TextMap)
    → has_no_tokens config ≡ false
    → is_ok (verdict config md) ≡ true
    → Presents config md
Presents-authenticate config md asks passed =
    let (token, identity, carried, owned, admits) =
      process_sound config md fresh_context [] asks (rw (process-verdict config md) passed) in
    record { token = token; identity = identity; carried = carried; owned = owned }

module _ {engine : RegexEngine} {W : Type 0} (runners : ℤ → CmdRunner W) (files : Bytes → IniFile)
    (getenv : GetEnv) (args : Args) (vars : CliVars) (disk : Bytes → Option Bytes) (builds : Bool)
    (setup : Setup) (srv : GrpcServer engine)
    (up : startup files getenv args vars ≡ continues setup)
    (built : make_server engine disk builds setup ≡ started srv) (md : TextMap) (s : State W) where
  abbrev pub configured : Policy engine
  configured = make_policy engine setup.allowlist setup.denylist

  pub asks : is_empty setup.auth_tokens ≡ false → has_no_tokens setup.auth_tokens ≡ false
  unfolding is_enabled
  asks some_token =
      let safe =
        startup_authenticates disk builds setup srv files getenv args vars up built some_token in
      ground (arith, safe.2, is_empty-make_processor setup.auth_tokens)

  pub silent_refused :
      is_empty setup.auth_tokens ≡ false → is_ok (verdict setup.auth_tokens []) ≡ false
  silent_refused some_token = verdict_silent setup.auth_tokens (asks some_token)

  -- gRPC asks the attached processor as the configuration demands, and asks nothing if there is none.
  pub call-verdict :
      {A : Type 0} (grpc : Grpc (State W) A) (h : State W → State W × Status × A)
      → grpc.call (attached_processor srv.auth_processor) md s h ≡ (
          let (s', st, a) = h s in
          if is_ok (verdict setup.auth_tokens md)
          then (s', st, some a)
          else (s, verdict setup.auth_tokens md, none))
  call-verdict grpc h =
      let attached = (make_server_security disk builds setup srv built).2 in
      elim (Bool-cases (has_tls setup.tls_config)) [
        | inl tls ↦ rw (attached, tls) (call-authenticate grpc setup.auth_tokens md s h)
        | inr plain ↦
            let nobody = startup-has_tls files getenv args vars setup up plain in
            rw (attached, plain, verdict_empty setup.auth_tokens md nobody) (grpc.bare md s h)
      ]

  assembled : (srv.policy ≡ configured) × (srv.cmd_timeout_ms ≡ setup.cmd_timeout_ms)
  assembled = make_server-policy disk builds setup srv built

  -- For a server that comes up, whatever the command line, the file and the environment say: a call of
  -- `RemCmd` whose metadata the configuration does not authenticate ends with the status for that and
  -- reaches no handler, also where the call would be refused anyway; any other is run, once, under the
  -- configured timeout, if the configured access lists and the hash allow it, and refused otherwise.
  pub call_rem_cmd-authenticate :
      (grpc : Grpc (State W) RemResMsg) (req : RemCmdMsg)
      → call_rem_cmd runners srv grpc md s req ≡ (
          let (s', res) = run_one (runners setup.cmd_timeout_ms) s req in
          let st = verdict setup.auth_tokens md in
          if not (is_ok st)
          then (s, st, none)
          else if accepts configured req
          then (s', status_ok, some res)
          else (s, refusal configured req, some empty_res))
  call_rem_cmd-authenticate grpc req =
      let step =
        λ (st : State W). rem_cmd configured (runners setup.cmd_timeout_ms) st req empty_res in
      unfold call_rem_cmd in
      rw (assembled.0, assembled.1)
        (call-verdict grpc step
          ∙ rw (rem_cmd-run_one configured (runners setup.cmd_timeout_ms) s req empty_res)
              (ground arith))

  call_stream-authenticate :
      (grpc : Grpc (State W) (List RemResMsg)) (reqs : List RemCmdMsg)
      → call_stream runners srv grpc md s reqs ≡ (
          let (s', written) = run_all (runners setup.cmd_timeout_ms) s (accepted configured reqs) in
          let st = verdict setup.auth_tokens md in
          if not (is_ok st) then (s, st, none) else (s', ending configured reqs, some written))
  call_stream-authenticate grpc reqs =
      let step =
        λ (st : State W). process_stream configured (runners setup.cmd_timeout_ms) st reqs [] in
      unfold call_stream in
      rw (assembled.0, assembled.1)
        (call-verdict grpc step
          ∙ rw (process_stream-run_all configured (runners setup.cmd_timeout_ms) s reqs [])
              (ground arith))

  -- For a server that comes up with at least one token in its configuration: a call of `RemCmdStrm` that
  -- changes the counter or the world showed "Bearer " and a token that a configured identity has, and
  -- its first message was accepted by the configured access lists and its hash.
  pub call_stream_changed :
      (grpc : Grpc (State W) (List RemResMsg)) (reqs : List RemCmdMsg)
      → is_empty setup.auth_tokens ≡ false
      → ¬ (call_stream runners srv grpc md s reqs).0 ≡ s
      → Presents setup.auth_tokens md × (is_empty (accepted configured reqs) ≡ false)
  call_stream_changed grpc reqs some_token changed =
      let result = call_stream-authenticate grpc reqs in
      elim (Bool-cases (is_ok (verdict setup.auth_tokens md))) [
        | inl opened ↦ (
          Presents-authenticate setup.auth_tokens md (asks some_token) opened,
          elim (Bool-cases (is_empty (accepted configured reqs))) [
            | inl nothing ↦ absurd (
                changed
                  (rw (result, opened) (run_all_idle (runners setup.cmd_timeout_ms) s _ nothing)))
            | inr some_run ↦ some_run
          ],
        )
        | inr shut ↦ absurd (changed (rw (result, shut) refl))
      ]
