-- ===== src/Client/Deadline.antt =====
-- The deadline of 30 seconds that src/client/RemSvcClient.cc sets for each call, against the timeout of the
-- commands on the server (src/server/RemSvcServiceImpl.cc).
mod Tests
use rem_svc.Base.{
  ℕ, ◌+◌, ◌≤◌, ◌<◌, some, true, false, Bytes, is_empty, ◌≡◌, refl, ap, ◌∙◌, arith, if◌then◌else◌,
}
use rem_svc.Base.Int.{ℤ, pos}
use rem_svc.Proto.{RemCmdMsg, RemResMsg, Status, status_ok, is_ok, empty_res}
use rem_svc.Policy.{RegexEngine, Policy, check_allowed}
use rem_svc.Service.{Outcome, truncate_output, State, CmdRunner, rem_cmd}
use rem_svc.Service.Execute.{accepts, run_one, is_ok-refusal, rem_cmd-run_one}
use rem_svc.Process.{Os, timeout_text}
use rem_svc.Process.Rounds.{Expires, default_runner}
use rem_svc.Process.Clock.{Clock, overhead, default_runner-time}
use rem_svc.Process.Overrun.{Outlasts, default_runner_overrun}
use rem_svc.Calls.Grace.{rem_cmd-time}
use rem_svc.Client.{Stub, make_request, make_context, call_ms, do_rem_cmd}
use rem_svc.Client.EndToEnd.{accepts-make_request}
use rem_svc.Client.Adapters.{GeneratedStub, grpc_rem_svc_stub}

-- The generated stub on a channel to the service, with what gRPC documents of deadlines: the server takes
-- up a call whose deadline is to come and runs the handler; an answer that the handler gives in time for the network to deliver it
-- before the deadline comes back, and where the handler ends at the deadline or later, the call ends with
-- a status that is not OK.
pub record Channel {engine : RegexEngine} {W : Type 0} (policy : Policy engine)
    (runner : CmdRunner W) (now : W → ℕ) : Type 0 where
  pub stub : GeneratedStub (State W)
  pub latency : ℕ
  pub reached :
      (s : State W) (deadline : ℕ) (req : RemCmdMsg)
      → now s.world < deadline
      → (stub.rem_cmd s (record { deadline = some deadline }) req).0
        ≡ (rem_cmd policy runner s req empty_res).0
  pub in_time :
      (s : State W) (deadline : ℕ) (req : RemCmdMsg)
      → now (rem_cmd policy runner s req empty_res).0.world + latency < deadline
      → stub.rem_cmd s (record { deadline = some deadline }) req
        ≡ rem_cmd policy runner s req empty_res
  pub late :
      (s : State W) (deadline : ℕ) (req : RemCmdMsg)
      → deadline ≤ now (rem_cmd policy runner s req empty_res).0.world
      → is_ok (stub.rem_cmd s (record { deadline = some deadline }) req).1 ≡ false

module _ {engine : RegexEngine} {W : Type 0} {os : Os W} (clock : Clock os) (policy : Policy engine)
    (t : ℕ) (bound : W → ℕ) (expires : Expires os (pos t) bound) where
  open clock use {now}

  -- The runner of the server, with a timeout of `t` milliseconds.
  abbrev runner : CmdRunner W
  runner = default_runner os (pos t) bound expires

  module _ (channel : Channel policy runner now) where
    -- The client, on the server's clock.
    abbrev pub client : Stub (State W)
    client = grpc_rem_svc_stub (λ s. now s.world) channel.stub

    in_deadline :
        (s : State W) (req : RemCmdMsg)
        → (t + overhead clock) + channel.latency < call_ms
        → channel.stub.rem_cmd s (make_context client s) req ≡ rem_cmd policy runner s req empty_res
    unfolding grpc_rem_svc_stub
    in_deadline s req short = channel.in_time s (now s.world + call_ms) req (
        omega (
          arith,
          rem_cmd-time policy runner now (t + overhead clock)
              (default_runner-time clock t bound expires) s req empty_res,
        ))

    accepts-request :
        (cmd : Bytes) (cmdtyp tid : ℤ) (cmdusr : Bytes)
        → accepts policy (make_request cmd cmdtyp tid cmdusr)
          ≡ is_empty (check_allowed engine policy cmd)
    accepts-request = accepts-make_request policy runner 0 0

    taken_up :
        (s : State W) (req : RemCmdMsg)
        → (channel.stub.rem_cmd s (make_context client s) req).0
          ≡ (rem_cmd policy runner s req empty_res).0
    unfolding grpc_rem_svc_stub
    taken_up s req = channel.reached s (now s.world + call_ms) req (omega arith)

    behind_deadline :
        (s : State W) (req : RemCmdMsg)
        → now s.world + call_ms ≤ now (rem_cmd policy runner s req empty_res).0.world
        → is_ok (channel.stub.rem_cmd s (make_context client s) req).1 ≡ false
    unfolding grpc_rem_svc_stub
    behind_deadline s req late = channel.late s (now s.world + call_ms) req late

    -- The result of `doRemCmd`, from the call of the stub.
    result : State W × Status × RemResMsg → State W × ℤ
    result (s, st, res) = if is_ok st then (s, res.rc) else (s, pos 1)

    do_rem_cmd-result :
        (s : State W) (cmd : Bytes) (cmdtyp tid : ℤ) (cmdusr : Bytes)
        → do_rem_cmd client s cmd cmdtyp tid cmdusr
          ≡ result
              (channel.stub.rem_cmd s (make_context client s) (make_request cmd cmdtyp tid cmdusr))
    unfolding do_rem_cmd grpc_rem_svc_stub result
    do_rem_cmd-result s cmd cmdtyp tid cmdusr = refl

    -- If the timeout of the server, the time that a command takes beyond it and the delay of the network
    -- are together below 30 seconds, the answer to every `doRemCmd` arrives: a command that the access lists
    -- allow is run once and its exit code comes back, whatever it does, and for any other nothing is run
    -- and the result is 1.
    pub do_rem_cmd_in_time :
        (s : State W) (cmd : Bytes) (cmdtyp tid : ℤ) (cmdusr : Bytes)
        → (t + overhead clock) + channel.latency < call_ms
        → do_rem_cmd client s cmd cmdtyp tid cmdusr ≡ (
            let (s', res) = run_one runner s (make_request cmd cmdtyp tid cmdusr) in
            if is_empty (check_allowed engine policy cmd) then (s', res.rc) else (s, pos 1))
    unfolding result
    do_rem_cmd_in_time s cmd cmdtyp tid cmdusr short =
        let req = make_request cmd cmdtyp tid cmdusr in
        do_rem_cmd-result s cmd cmdtyp tid cmdusr
        ∙ ap result (in_deadline s req short ∙ rem_cmd-run_one policy runner s req empty_res)
        ∙ ground (arith, accepts-request cmd cmdtyp tid cmdusr, is_ok-refusal policy req)

    -- If the timeout of the server is 30 seconds or more, the client is never told that a command has timed
    -- out: for an allowed command that outlasts it, the command is run and counted, and the handler's answer
    -- has the text of the timeout, but the call ends with a status that is not OK, and the result is 1.
    pub do_rem_cmd_overrun :
        (s : State W) (cmd : Bytes) (cmdtyp tid : ℤ) (cmdusr : Bytes)
        → let req = make_request cmd cmdtyp tid cmdusr in
          let (s', res) = run_one runner s req in
          call_ms ≤ t
          → is_empty (check_allowed engine policy cmd) ≡ true
          → Outlasts os t s.world req.cmd req.cmdtyp req.cmdusr
          → (res.err ≡ timeout_text)
            × (is_ok (channel.stub.rem_cmd s (make_context client s) req).1 ≡ false)
            × (do_rem_cmd client s cmd cmdtyp tid cmdusr ≡ (s', pos 1))
    unfolding result
    do_rem_cmd_overrun s cmd cmdtyp tid cmdusr slow allowed long =
        let req = make_request cmd cmdtyp tid cmdusr in
        let fits = accepts-request cmd cmdtyp tid cmdusr ∙ allowed in
        let ran : rem_cmd policy runner s req empty_res
            ≡ ((run_one runner s req).0, status_ok, (run_one runner s req).1) =
          rem_cmd-run_one policy runner s req empty_res ∙ rw fits refl in
        let (text, end) =
          default_runner_overrun clock t bound expires s.world req.cmd req.cmdtyp req.cmdusr long in
        let late : now s.world + call_ms ≤ now (run_one runner s req).0.world =
          unfold run_one in omega (arith, end) in
        let shut = behind_deadline s req (rw ran late) in
        (
          unfold run_one truncate_output in ap (λ (o : Outcome). truncate_output o.err) text,
          shut,
          do_rem_cmd-result s cmd cmdtyp tid cmdusr
              ∙ rw shut (
                  ap (λ (s' : State W). (s', pos 1))
                    (taken_up s req ∙ ap (λ (r : State W × Status × RemResMsg). r.0) ran)),
        )
