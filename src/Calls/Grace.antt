-- ===== src/Calls/Grace.antt =====
-- How long the handlers of src/server/RemSvcServiceImpl.cc take, and the time that `stop` of
-- src/server/GrpcServerThread.cc leaves them.
mod Tests
use rem_svc.Base.{
  ℕ, ◌+◌, ◌*◌, ◌≤◌, List, [], ◌∷◌, length, Option, none, some, Bytes, ◌≡◌, arith, Bool-cases, inl,
  inr,
}
use rem_svc.Base.Int.{ℤ, pos, ◌≤ℤ◌}
use rem_svc.Base.Maps.{TextMap}
use rem_svc.Proto.{RemCmdMsg, RemResMsg, Status, is_ok, empty_res}
use rem_svc.Policy.{RegexEngine, Policy}
use rem_svc.Service.{State, CmdRunner, rem_cmd, process_stream}
use rem_svc.Service.Execute.{accepts, run_one, rem_cmd-run_one}
use rem_svc.Service.Stream.{accepted, run_all, process_stream-run_all}
use rem_svc.Process.{Os}
use rem_svc.Process.Rounds.{Expires, default_runner}
use rem_svc.Process.Clock
use rem_svc.Process.Clock.{Clock, Within, overhead, default_runner-time}
use rem_svc.Server.{GrpcServer}
use rem_svc.Lifecycle.{shutdown_deadline}
use rem_svc.Lifecycle.Shutdown.{IsInt32, shutdown_deadline_lem}
use rem_svc.Calls.{Grpc, attached_processor, call_rem_cmd, call_stream}

module _ {engine : RegexEngine} {W : Type 0} (policy : Policy engine) (runner : CmdRunner W)
    (now : W → ℕ) (d : ℕ)
    (timely : (w : W) (cmd : Bytes) (cmdtyp : ℤ) (cmdusr : Bytes)
      → Within d (now w) (now (runner w cmd cmdtyp cmdusr).0)) where
  run_one-time :
      (s : State W) (req : RemCmdMsg) → Within d (now s.world) (now (run_one runner s req).0.world)
  unfolding run_one
  run_one-time s req = timely s.world req.cmd req.cmdtyp req.cmdusr

  -- A call of `RemCmd` takes no longer than one command.
  pub rem_cmd-time :
      (s : State W) (req : RemCmdMsg) (res : RemResMsg)
      → Within d (now s.world) (now (rem_cmd policy runner s req res).0.world)
  rem_cmd-time s req res = elim (Bool-cases (accepts policy req)) [
    | inl fits ↦ rw (rem_cmd-run_one policy runner s req res, fits) (run_one-time s req)
    | inr fails ↦ rw (rem_cmd-run_one policy runner s req res, fails) (omega arith)
  ]

  run_all-time :
      (s : State W) (reqs : List RemCmdMsg)
      → Within (length reqs * d) (now s.world) (now (run_all runner s reqs).0.world)
  unfolding run_all
  run_all-time s [] = omega arith
  run_all-time s (req ∷ reqs) =
      let (s', res) = run_one runner s req in
      grind (arith, run_one-time s req, run_all-time s' reqs)

  -- A stream takes no longer than its accepted messages.
  process_stream-time :
      (s : State W) (reqs : List RemCmdMsg) (written : List RemResMsg)
      → Within
          (length (accepted policy reqs) * d)
          (now s.world)
          (now (process_stream policy runner s reqs written).0.world)
  process_stream-time s reqs written =
      rw (process_stream-run_all policy runner s reqs written)
        (run_all-time s (accepted policy reqs))

-- A call leaves the state as it was or as its handler leaves it.
Grpc-state :
    {S A : Type 0} (grpc : Grpc S A) (p : Option (TextMap → Status)) (md : TextMap) (s : S)
    (h : S → S × Status × A) (P : S → Type 0)
    → P s
    → P (h s).0
    → P (grpc.call p md s h).0
Grpc-state grpc none md s h P same left = rw (grpc.bare md s h) left
Grpc-state grpc (some p) md s h P same left = elim (Bool-cases (is_ok (p md))) [
  | inl e ↦ rw (grpc.admitted p md s h e) left
  | inr e ↦ rw (grpc.refused p md s h e) same
]

-- A server whose runner is `runInProcess` with a timeout of `t` milliseconds.
module _ {engine : RegexEngine} {W : Type 0} {os : Os W} (clock : Clock os) (t : ℕ) (bound : W → ℕ)
    (expires : Expires os (pos t) bound) (runners : ℤ → CmdRunner W) (srv : GrpcServer engine)
    (runs : runners srv.cmd_timeout_ms ≡ default_runner os (pos t) bound expires) where
  open clock use {now}

  timely :
      (w : W) (cmd : Bytes) (cmdtyp : ℤ) (cmdusr : Bytes)
      → Within (t + overhead clock) (now w) (now (runners srv.cmd_timeout_ms w cmd cmdtyp cmdusr).0)
  timely w cmd cmdtyp cmdusr =
      rw runs (default_runner-time clock t bound expires w cmd cmdtyp cmdusr)

  deadline_ms :
      (stopped_at : ℕ)
      → IsInt32 (pos t)
      → shutdown_deadline stopped_at (pos t) ≡ pos (stopped_at + 2 * t)
  deadline_ms stopped_at int = (shutdown_deadline_lem stopped_at (pos t) int).0

  -- A call of `RemCmd` that has begun when the server is stopped is over by the deadline of the
  -- shutdown, whatever its metadata and its command: if the timeout is at least as long as the start of a
  -- process, one round of the polling loop and the end of a process together.
  pub call_rem_cmd-deadline :
      (grpc : Grpc (State W) RemResMsg) (md : TextMap) (s : State W) (req : RemCmdMsg)
      (stopped_at : ℕ)
      → IsInt32 (pos t)
      → overhead clock ≤ t
      → now s.world ≤ stopped_at
      → pos (now (call_rem_cmd runners srv grpc md s req).0.world)
        ≤ℤ shutdown_deadline stopped_at (pos t)
  unfolding call_rem_cmd
  call_rem_cmd-deadline grpc md s req stopped_at int enough begun =
      let runner = runners srv.cmd_timeout_ms in
      rw (deadline_ms stopped_at int) (
        Grpc-state grpc (attached_processor srv.auth_processor) md s
          (λ s. rem_cmd srv.policy runner s req empty_res)
          (λ (s' : State W). pos (now s'.world) ≤ℤ pos (stopped_at + 2 * t)) (omega arith)
          (omega (
            arith,
            rem_cmd-time srv.policy runner now (t + overhead clock) timely s req empty_res,
          )))

  -- A call of `RemCmdStrm` takes no longer than its accepted messages: each takes at most the timeout and
  -- a fixed time, whatever its command does.
  pub call_stream-time :
      (grpc : Grpc (State W) (List RemResMsg)) (md : TextMap) (s : State W) (reqs : List RemCmdMsg)
      → Within
          (length (accepted srv.policy reqs) * (t + overhead clock))
          (now s.world)
          (now (call_stream runners srv grpc md s reqs).0.world)
  unfolding call_stream
  call_stream-time grpc md s reqs =
      let runner = runners srv.cmd_timeout_ms in
      Grpc-state grpc (attached_processor srv.auth_processor) md s
        (λ s. process_stream srv.policy runner s reqs [])
        (λ (s' : State W).
          Within (length (accepted srv.policy reqs) * (t + overhead clock)) (now s.world)
            (now s'.world))
        (omega arith)
        (process_stream-time srv.policy runner now (t + overhead clock) timely s reqs [])
