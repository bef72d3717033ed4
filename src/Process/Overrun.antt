-- ===== src/Process/Overrun.antt =====
-- A command that outlasts its timeout, under the default runner (src/server/RemSvcServiceImpl.cc).
use rem_svc.Base.{ℕ, suc, ◌+◌, ◌≤◌, some, true, Bytes, ◌≡◌, refl, ◌∙◌, arith}
use rem_svc.Base.Int.{ℤ, pos}
use rem_svc.Service.{Outcome}
use rem_svc.Process.{Launch, Os, planned, plan, failed, timeout_text, run_in_process}
use rem_svc.Process.Rounds.{
  after, EndsAfter, Expires, default_runner, default_runner-run_in_process,
}
use rem_svc.Process.Capture.{begins, armed_at, run_in_process_outcome}
use rem_svc.Process.Clock.{Clock, killed_late}

-- A command that is launched and begins, and whose process still runs when the timer has expired: the
-- loop makes `rounds` rounds until then.
pub record Outlasts {W : Type 0} (os : Os W) (t : ℕ) (w : W) (cmd : Bytes) (cmdtyp : ℤ)
    (cmdusr : Bytes) : Type 0 where
  pub launch : Launch
  pub rounds : ℕ
  pub chosen : plan os cmd cmdtyp cmdusr ≡ planned launch
  pub begun : begins os (pos t) w cmd cmdtyp cmdusr launch ≡ true
  pub expired :
      EndsAfter os
        (pos t)
        (armed_at os (pos t) w cmd cmdtyp cmdusr launch)
        rounds
        (armed_at os (pos t) w cmd cmdtyp cmdusr launch)
  pub runs : os.is_running (after os rounds (armed_at os (pos t) w cmd cmdtyp cmdusr launch)) ≡ true

module _ {W : Type 0} {os : Os W} (clock : Clock os) (t : ℕ) (bound : W → ℕ)
    (expires : Expires os (pos t) bound) (w : W) (cmd : Bytes) (cmdtyp : ℤ) (cmdusr : Bytes)
    (long : Outlasts os t w cmd cmdtyp cmdusr) where
  abbrev killed : W × Outcome
  killed =
      let armed = armed_at os (pos t) w cmd cmdtyp cmdusr long.launch in
      (
        os.destroy (os.wait_for_finished (os.kill (after os long.rounds armed))),
        failed timeout_text,
      )

  default_runner-killed : default_runner os (pos t) bound expires w cmd cmdtyp cmdusr ≡ killed
  default_runner-killed =
      let (m, reached) =
        default_runner-run_in_process os (pos t) bound expires w cmd cmdtyp cmdusr in
      let fuel : ℕ = suc (m + long.rounds) in
      let outcome =
        run_in_process_outcome os (pos t) w cmd cmdtyp cmdusr long.launch long.rounds fuel
          long.chosen long.expired (omega arith) in
      let same : run_in_process os fuel (pos t) w cmd cmdtyp cmdusr ≡ some killed =
        outcome ∙ rw (long.begun, long.runs) refl in
      cc (reached fuel (omega arith), same)

  -- Its run ends with the text of the timeout, and not before the timeout has passed.
  pub default_runner_overrun :
      let (w', o) = default_runner os (pos t) bound expires w cmd cmdtyp cmdusr in
      (o ≡ failed timeout_text) × (clock.now w + t ≤ clock.now w')
  default_runner_overrun =
      rw default_runner-killed
        (refl, killed_late clock t long.rounds w long.launch long.expired long.runs)
