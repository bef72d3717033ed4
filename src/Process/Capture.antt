-- ===== src/Process/Capture.antt =====
-- What `runInProcess` (src/server/RemSvcServiceImpl.cc) gives back of a child's output.
use rem_svc.Base.{
  ℕ, ◌<◌, [], ◌++◌, some, Bool, not, Bytes, if◌then◌else◌, ◌≡◌, refl, ap, ◌∙◌, arith,
}
use rem_svc.Base.Int.{ℤ}
use rem_svc.Process.{
  Launch, Os, planned, drain, collect, failed, start_text, timeout_text, supervise, plan,
  launch_plan, run_in_process,
}
use rem_svc.Process.Rounds.{after, out_of, err_of, EndsAfter, poll_loop-EndsAfter}

pub run_in_process-launch_plan :
    {W : Type 0} (os : Os W) (fuel : ℕ) (timeout_ms : ℤ) (w : W) (cmd : Bytes) (cmdtyp : ℤ)
    (cmdusr : Bytes)
    → run_in_process os fuel timeout_ms w cmd cmdtyp cmdusr
      ≡ launch_plan os fuel timeout_ms w (plan os cmd cmdtyp cmdusr)
unfolding run_in_process
run_in_process-launch_plan os fuel timeout_ms w cmd cmdtyp cmdusr = refl

module _ {W : Type 0} (os : Os W) (timeout_ms : ℤ) (w : W) (cmd : Bytes) (cmdtyp : ℤ)
    (cmdusr : Bytes) (launch : Launch) where
  -- Whether the process started, and the world in which the timer is set.
  abbrev pub begins : Bool
  begins = (os.wait_for_started (os.start w launch)).1

  abbrev pub armed_at : W
  armed_at = os.close_write_channel (os.wait_for_started (os.start w launch)).0

  -- A launched command is answered with code 1 if the process does not start. Otherwise let the loop
  -- make `n` rounds: a process that still runs then is killed and answered with code 1 and no output;
  -- any other gives its exit code and, in order, all that the rounds and the last drain read from its
  -- two channels.
  pub run_in_process_outcome :
      (n fuel : ℕ)
      → plan os cmd cmdtyp cmdusr ≡ planned launch
      → EndsAfter os timeout_ms armed_at n armed_at
      → n < fuel
      → run_in_process os fuel timeout_ms w cmd cmdtyp cmdusr
        ≡ some (
            let end = after os n armed_at in
            let (last, out, err) = drain os end in
            if not begins
            then (os.destroy (os.wait_for_started (os.start w launch)).0, failed start_text)
            else if os.is_running end
            then (os.destroy (os.wait_for_finished (os.kill end)), failed timeout_text)
            else (
              os.destroy last,
              record {
                rc = os.exit_code last;
                out = out_of os n armed_at ++ out;
                err = err_of os n armed_at ++ err;
              },
            ))
  run_in_process_outcome n fuel chosen ends enough =
      run_in_process-launch_plan os fuel timeout_ms w cmd cmdtyp cmdusr
      ∙ ap (launch_plan os fuel timeout_ms w) chosen
      ∙ unfold launch_plan supervise collect in
        rw (poll_loop-EndsAfter os timeout_ms armed_at n fuel armed_at [] [] enough ends)
          (ground arith)
