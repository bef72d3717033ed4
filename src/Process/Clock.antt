-- ===== src/Process/Clock.antt =====
-- How long `runInProcess` (src/server/RemSvcServiceImpl.cc) takes, by a clock in milliseconds.
use rem_svc.Base.{
  ℕ, zero, suc, ◌+◌, ◌*◌, ◌≤◌, ◌<◌, Option, none, some, true, false, [], ◌++◌, Bytes, leb, ◌≡◌, ◌⊎◌,
  subst, arith, Bool-cases, inl, inr, ◌∙◌,
}
use rem_svc.Base.Int.{ℤ, pos}
use rem_svc.Service.{Outcome}
use rem_svc.Process.Rounds.{
  after, EndsAfter, poll_loop-EndsAfter, Expires, default_runner, default_runner-run_in_process,
}
use rem_svc.Process.{
  Launch, Plan, refused, planned, Os, drain, poll_loop, collect, collect_result, supervise, plan,
  launch_plan, run_in_process,
}

-- The time goes on by at most `d`.
abbrev pub Within : ℕ → ℕ → ℕ → Type 0
Within d before after = (before ≤ after) × (after ≤ before + d)

-- The clock of a system, and what Qt documents of the calls that wait: they return when the time that they
-- are given has passed, or before. A call takes at most `slack` beyond that; the process is started within
-- `start_ms`, and the destructor of `QProcess` is over within `end_ms`.
pub record Clock {W : Type 0} (os : Os W) : Type 0 where
  pub now : W → ℕ
  pub slack : ℕ
  pub start_ms : ℕ
  pub start_time : (w : W) (launch : Launch) → Within slack (now w) (now (os.start w launch))
  pub started_time : (w : W) → Within start_ms (now w) (now (os.wait_for_started w).0)
  pub close_time : (w : W) → Within slack (now w) (now (os.close_write_channel w))
  pub expiry : (t : ℕ) (armed w : W) → os.has_expired (pos t) armed w ≡ leb (now armed + t) (now w)
  pub wait_time : (w : W) → Within (50 + slack) (now w) (now (os.wait_for_ready_read w))
  pub output_time : (w : W) → Within slack (now w) (now (os.read_output w).0)
  pub error_time : (w : W) → Within slack (now w) (now (os.read_error w).0)
  pub kill_time : (w : W) → Within slack (now w) (now (os.kill w))
  pub finish_time : (w : W) → Within (1000 + slack) (now w) (now (os.wait_for_finished w))
  pub end_ms : ℕ
  pub end_time : (w : W) → Within end_ms (now w) (now (os.destroy w))

module _ {W : Type 0} {os : Os W} (clock : Clock os) where
  open clock use {now, slack, start_ms, end_ms}

  -- What a round of the loop takes, and what follows the loop.
  abbrev pub round_ms : ℕ
  round_ms = 50 + 3 * slack

  abbrev pub last_ms : ℕ
  last_ms = 1000 + (2 * slack + end_ms)

  -- What the runner takes beyond the timeout.
  abbrev pub overhead : ℕ
  overhead = (2 * slack + start_ms) + (round_ms + last_ms)

  drain_time : (w : W) → Within (2 * slack) (now w) (now (drain os w).0)
  unfolding drain
  drain_time w = omega (arith, clock.output_time w, clock.error_time (os.read_output w).0)

  round_time : (w : W) → Within round_ms (now w) (now (drain os (os.wait_for_ready_read w)).0)
  round_time w = omega (arith, clock.wait_time w, drain_time (os.wait_for_ready_read w))

  module _ (t : ℕ) (armed : W) where
    -- The world in which the loop ends: no later than a round after the deadline, and not before it
    -- where the process still runs.
    abbrev LoopEnds : Option (W × Bytes × Bytes) → Type 0
    LoopEnds none = Unit {0}
    LoopEnds (some (w, out, err)) =
        Within (t + round_ms) (now armed) (now w)
        × ((os.is_running w ≡ false) ⊎ (now armed + t ≤ now w))

    -- A round that is begun in time.
    next_round :
        (w : W)
        → Within (t + round_ms) (now armed) (now w)
        → leb (now armed + t) (now w) ≡ false
        → Within (t + round_ms) (now armed) (now (drain os (os.wait_for_ready_read w)).0)
    next_round w h early =
        let before : now w < now armed + t = ground (arith, early) in omega (arith, round_time w)

    poll_loop-LoopEnds :
        (fuel : ℕ) (w : W) (out err : Bytes)
        → Within (t + round_ms) (now armed) (now w)
        → LoopEnds (poll_loop os fuel (pos t) armed w out err)
    unfolding poll_loop
    poll_loop-LoopEnds zero w out err h = tt
    poll_loop-LoopEnds (suc fuel) w out err h =
        let (w', o, e) = drain os (os.wait_for_ready_read w) in
        let same = clock.expiry t armed w in
        elim (Bool-cases (leb (now armed + t) (now w))) [
          | inl late ↦ rw (same ∙ late) (h, inr (ground (arith, late)))
          | inr early ↦ elim (Bool-cases (os.is_running w')) [
            | inl runs ↦
                rw (same ∙ early, runs)
                  (poll_loop-LoopEnds fuel w' (out ++ o) (err ++ e) (next_round w h early))
            | inr stopped ↦ rw (same ∙ early, stopped) (next_round w h early, inl stopped)
          ]
        ]

  -- The world that a run ends in, if it has a result.
  abbrev RunEnds : ℕ → W → Option (W × Outcome) → Type 0
  RunEnds d w none = Unit {0}
  RunEnds d w (some (w', o)) = Within d (now w) (now w')

  collect-time : (w : W) (out err : Bytes) → Within last_ms (now w) (now (collect os w out err).0)
  unfolding collect
  collect-time w out err = elim (Bool-cases (os.is_running w)) [
    | inl runs ↦
        let killed = os.wait_for_finished (os.kill w) in
        rw runs
          (omega (arith, clock.kill_time w, clock.finish_time (os.kill w), clock.end_time killed))
    | inr stopped ↦ rw stopped (omega (arith, drain_time w, clock.end_time (drain os w).0))
  ]

  collect_result-RunEnds :
      (t : ℕ) (w armed : W) (loop : Option (W × Bytes × Bytes))
      → Within (2 * slack + start_ms) (now w) (now armed)
      → LoopEnds t armed loop
      → RunEnds (t + overhead) w (collect_result os loop)
  collect_result-RunEnds t w armed none h l = tt
  collect_result-RunEnds t w armed (some (end, out, err)) h l =
      let (in_time, why) = l in omega (arith, collect-time end out err)

  launch-time :
      (w : W) (launch : Launch)
      → let started = (os.wait_for_started (os.start w launch)).0 in
        Within (2 * slack + start_ms) (now w) (now (os.close_write_channel started))
        × Within (slack + (start_ms + end_ms)) (now w) (now (os.destroy started))
  launch-time w launch =
      let started = os.start w launch in
      omega (
        arith,
        clock.start_time w launch,
        clock.started_time started,
        clock.close_time (os.wait_for_started started).0,
        clock.end_time (os.wait_for_started started).0,
      )

  supervise-RunEnds :
      (fuel t : ℕ) (w : W) (launch : Launch)
      → RunEnds (t + overhead) w (supervise os fuel (pos t) w launch)
  unfolding supervise
  supervise-RunEnds fuel t w launch =
      let (w', started) = os.wait_for_started (os.start w launch) in
      let armed = os.close_write_channel w' in
      let (ready, begun) = launch-time w launch in
      elim (Bool-cases started) [
        | inl yes' ↦ rw yes' (
            collect_result-RunEnds t w armed (poll_loop os fuel (pos t) armed armed [] []) ready
              (poll_loop-LoopEnds t armed fuel armed [] [] (omega arith)))
        | inr no' ↦ rw no' (omega arith)
      ]

  -- A run of `runInProcess` with a result took no longer than its timeout and a fixed time for the start of
  -- the process, one round of the loop and the end of the process, whatever the command does.
  pub run_in_process-RunEnds :
      (fuel t : ℕ) (w : W) (cmd : Bytes) (cmdtyp : ℤ) (cmdusr : Bytes)
      → RunEnds (t + overhead) w (run_in_process os fuel (pos t) w cmd cmdtyp cmdusr)
  unfolding run_in_process
  run_in_process-RunEnds fuel t w cmd cmdtyp cmdusr = go (plan os cmd cmdtyp cmdusr)
    where
      go : (p : Plan) → RunEnds (t + overhead) w (launch_plan os fuel (pos t) w p)
      go (refused text) = unfold launch_plan in omega arith
      go (planned launch) = unfold launch_plan in supervise-RunEnds fuel t w launch

  -- The default runner takes no longer.
  pub default_runner-time :
      (t : ℕ) (bound : W → ℕ) (expires : Expires os (pos t) bound) (w : W) (cmd : Bytes)
      (cmdtyp : ℤ) (cmdusr : Bytes)
      → Within
          (t + overhead)
          (now w)
          (now (default_runner os (pos t) bound expires w cmd cmdtyp cmdusr).0)
  default_runner-time t bound expires w cmd cmdtyp cmdusr =
      let (n, reached) =
        default_runner-run_in_process os (pos t) bound expires w cmd cmdtyp cmdusr in
      subst (RunEnds (t + overhead) w) (reached (suc n) (omega arith))
        (run_in_process-RunEnds (suc n) t w cmd cmdtyp cmdusr)

  -- A process that still runs when the loop has ended is killed after its time has passed.
  pub killed_late :
      (t n : ℕ) (w : W) (launch : Launch)
      → let armed = os.close_write_channel (os.wait_for_started (os.start w launch)).0 in
        EndsAfter os (pos t) armed n armed
        → os.is_running (after os n armed) ≡ true
        → now w + t ≤ now (os.destroy (os.wait_for_finished (os.kill (after os n armed))))
  killed_late t n w launch ends runs =
      let armed = os.close_write_channel (os.wait_for_started (os.start w launch)).0 in
      let end = after os n armed in
      let (in_time, why) =
        subst (LoopEnds t armed)
          (poll_loop-EndsAfter os (pos t) armed n (suc n) armed [] [] (omega arith) ends)
          (poll_loop-LoopEnds t armed (suc n) armed [] [] (omega arith)) in
      let late : now armed + t ≤ now end = elim why [ inl stopped ↦ cc | inr late ↦ late ] in
      omega (
        arith,
        late,
        (launch-time w launch).0,
        clock.kill_time end,
        clock.end_time (os.wait_for_finished (os.kill end)),
        clock.finish_time (os.kill end),
      )
