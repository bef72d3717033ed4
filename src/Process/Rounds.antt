-- ===== src/Process/Rounds.antt =====
-- The polling loop of `runInProcess` (src/server/RemSvcServiceImpl.cc): how many rounds it makes, and
-- what it has read by then.
use rem_svc.Base.{
  ℕ, zero, suc, ◌<◌, ◌≤◌, [], ◌++◌, append-nil, append_assoc, Option, none, some, true, false,
  Bytes, ◌≡◌, ◌⊎◌, refl, ap, ◌∙◌, arith, Bool-cases, inl, inr,
}
use rem_svc.Base.Int.{ℤ}
use rem_svc.Service.{Outcome, CmdRunner}
use rem_svc.Process.{
  Launch, Plan, failed, start_text, refused, planned, Os, drain, poll_loop, collect, collect_result,
  supervise, plan, launch_plan, run_in_process,
}

module _ {W : Type 0} (os : Os W) where
  -- One round: the wait, and both channels read.
  abbrev pub round : W → W × Bytes × Bytes
  round w = drain os (os.wait_for_ready_read w)

  -- The world after so many rounds.
  unfoldable pub after : ℕ → W → W
  after zero w = w
  after (suc n) w = after n (round w).0

  -- What so many rounds read from the two channels.
  pub out_of : ℕ → W → Bytes
  out_of zero w = []
  out_of (suc n) w = (round w).1 ++ out_of n (round w).0

  pub err_of : ℕ → W → Bytes
  err_of zero w = []
  err_of (suc n) w = (round w).2 ++ err_of n (round w).0

  module _ (timeout_ms : ℤ) (armed : W) where
    -- The loop makes so many rounds: the deadline has not expired before any of them, the process runs
    -- after all but the last, and then one of both has changed.
    abbrev pub EndsAfter : ℕ → W → Type 0
    EndsAfter zero w = os.has_expired timeout_ms armed w ≡ true
    EndsAfter (suc n) w =
        (os.has_expired timeout_ms armed w ≡ false)
        × (((os.is_running (round w).0 ≡ false) × (n ≡ 0))
            ⊎ ((os.is_running (round w).0 ≡ true) × EndsAfter n (round w).0))

    pub poll_loop-EndsAfter :
        (n fuel : ℕ) (w : W) (o e : Bytes)
        → n < fuel
        → EndsAfter n w
        → poll_loop os fuel timeout_ms armed w o e
          ≡ some (after n w, o ++ out_of n w, e ++ err_of n w)
    unfolding poll_loop after out_of err_of
    poll_loop-EndsAfter n zero w o e h ends = elim h [ ]
    poll_loop-EndsAfter zero (suc fuel) w o e h ends = rw ends (cc (append-nil o, append-nil e))
    poll_loop-EndsAfter (suc n) (suc fuel) w o e h ends =
        let (w', out, err) = round w in
        elim ends.1 [
          | inl (stopped, last) ↦
              rw (ends.0, stopped)
                (rw last (unfold after out_of err_of in cc (append-nil out, append-nil err)))
          | inr (runs, more) ↦
              rw (ends.0, runs)
                (poll_loop-EndsAfter n fuel w' (o ++ out) (e ++ err) (omega arith) more
                  ∙ cc (append_assoc o out (out_of n w'), append_assoc e err (err_of n w')))
        ]

    -- A loop whose timer has expired after so many rounds makes no more than these.
    pub EndsAfter-bound :
        (n : ℕ) (w : W)
        → os.has_expired timeout_ms armed (after n w) ≡ true
        → (m : ℕ) × (m ≤ n) × EndsAfter m w
    unfolding after
    EndsAfter-bound zero w h = (zero, omega arith, h)
    EndsAfter-bound (suc n) w h = elim (Bool-cases (os.has_expired timeout_ms armed w)) [
      | inl now ↦ (zero, omega arith, now)
      | inr later ↦ elim (Bool-cases (os.is_running (round w).0)) [
        | inl runs ↦
            let (m, le, ends) = EndsAfter-bound n (round w).0 h in
            (suc m, omega arith, (later, inr (runs, ends)))
        | inr stopped ↦ (suc zero, omega arith, (later, inl (stopped, refl)))
      ]
    ]

  -- A timer of so many milliseconds has expired so many rounds after it was set.
  abbrev pub Expires : ℤ → (W → ℕ) → Type 0
  Expires timeout_ms bound =
      (armed : W) → os.has_expired timeout_ms armed (after (bound armed) armed) ≡ true

  -- A result that every fuel above some number gives.
  abbrev pub Settles : (ℕ → Option (W × Outcome)) → Type 0
  Settles f = (r : W × Outcome) × (n : ℕ) × ((fuel : ℕ) → n < fuel → f fuel ≡ some r)

  module _ (timeout_ms : ℤ) (bound : W → ℕ) (expires : Expires timeout_ms bound) where
    supervise-Settles :
        (w : W) (launch : Launch) → Settles (λ fuel. supervise os fuel timeout_ms w launch)
    supervise-Settles w launch =
        let (w', started) = os.wait_for_started (os.start w launch) in
        let armed = os.close_write_channel w' in
        let (m, le, ends) = EndsAfter-bound timeout_ms armed (bound armed) armed (expires armed) in
        elim (Bool-cases started) [
          | inl yes' ↦ (
            collect os (after m armed) ([] ++ out_of m armed) ([] ++ err_of m armed),
            m,
            λ fuel h.
                unfold supervise in
                rw yes' (
                  ap (collect_result os)
                    (poll_loop-EndsAfter timeout_ms armed m fuel armed [] [] h ends)),
          )
          | inr no' ↦
              ((os.destroy w', failed start_text), 0, λ fuel h. unfold supervise in rw no' refl)
        ]

    -- The runner ends: if a timer of the given time expires after some number of rounds, every command
    -- gets a result, which does not depend on the fuel where there is enough of it.
    pub run_in_process-Settles :
        (w : W) (cmd : Bytes) (cmdtyp : ℤ) (cmdusr : Bytes)
        → Settles (λ fuel. run_in_process os fuel timeout_ms w cmd cmdtyp cmdusr)
    unfolding run_in_process
    run_in_process-Settles w cmd cmdtyp cmdusr = settle (plan os cmd cmdtyp cmdusr)
      where
        settle : (p : Plan) → Settles (λ fuel. launch_plan os fuel timeout_ms w p)
        settle (refused text) = ((w, failed text), 0, λ fuel h. unfold launch_plan in refl)
        settle (planned launch) = unfold launch_plan in supervise-Settles w launch

    -- The lambda round `runInProcess` that the constructors of the service and of the server thread
    -- make, for a time after which a timer expires.
    unfoldable pub default_runner : CmdRunner W
    default_runner w cmd cmdtyp cmdusr = (run_in_process-Settles w cmd cmdtyp cmdusr).0

    -- What the default runner returns is what `runInProcess` gives with enough fuel.
    pub default_runner-run_in_process :
        (w : W) (cmd : Bytes) (cmdtyp : ℤ) (cmdusr : Bytes)
        → (n : ℕ) × ((fuel : ℕ)
            → n < fuel
            → run_in_process os fuel timeout_ms w cmd cmdtyp cmdusr
              ≡ some (default_runner w cmd cmdtyp cmdusr))
    unfolding default_runner
    default_runner-run_in_process w cmd cmdtyp cmdusr =
        let s = run_in_process-Settles w cmd cmdtyp cmdusr in (s.1, s.2)

-- The runner that the constructor of `RemSvcServiceImpl` keeps: the one it is given, or the default.
unfoldable pub pick_runner : {W : Type 0} → CmdRunner W → Option (CmdRunner W) → CmdRunner W
pick_runner default none = default
pick_runner default (some runner) = runner
