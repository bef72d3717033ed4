-- ===== src/Process/Tests.antt =====
-- Runs of `runInProcess` (src/server/RemSvcServiceImpl.cc).
use rem_svc.Base.{
  ℕ, ◌<◌, [], ◌∷◌, ◌++◌, Option, none, some, Bool, true, false, ◌==◌, not, Bytes, codes, bytes_eq,
  if◌then◌else◌, ◌≡◌, ◌⊎◌, refl, arith, inl, inr,
}
use rem_svc.Base.Int.{pos}
use rem_svc.Process.{
  Launch, planned, plan, drain, failed, supervise, run_in_process, start_text, timeout_text,
  Credentials, Kernel, child_entry, executes, exits,
}
use rem_svc.Process.Rounds.{
  after, out_of, err_of, EndsAfter, Expires, Settles, run_in_process-Settles,
}
use rem_svc.Process.Capture.{begins, armed_at, run_in_process_outcome}
use rem_svc.Process.Identity.{run_in_process_identity}
use rem_svc.Samples.{posix}

abbrev shell : Launch
shell = record {
  program = codes "/bin/sh";
  arguments = codes "-c" ∷ codes "id" ∷ [];
  switch_to = some (1000, 100);
}

as_alice : plan posix (codes "id") (pos 0) (codes "alice") ≡ planned shell
unfolding plan bytes_eq
as_alice = refl

-- The process stops in the second round.
two_rounds :
    EndsAfter posix
      (pos 500)
      (armed_at posix (pos 500) 3 (codes "id") (pos 0) (codes "alice") shell)
      2
      (armed_at posix (pos 500) 3 (codes "id") (pos 0) (codes "alice") shell)
unfolding drain
two_rounds = (refl, inr (refl, (refl, inl (refl, refl))))

run_in_process_run :
    run_in_process posix 9 (pos 500) 3 (codes "id") (pos 0) (codes "alice")
    ≡ some (2, record { rc = pos 0; out = codes "bcc"; err = [] })
unfolding run_in_process bytes_eq
run_in_process_run = refl

run_in_process_outcome_example :
    let armed = armed_at posix (pos 500) 3 (codes "id") (pos 0) (codes "alice") shell in
    run_in_process posix 9 (pos 500) 3 (codes "id") (pos 0) (codes "alice")
    ≡ some (
        let end = after posix 2 armed in
        let (last, out, err) = drain posix end in
        if not (begins posix (pos 500) 3 (codes "id") (pos 0) (codes "alice") shell)
        then (posix.destroy (posix.wait_for_started (posix.start 3 shell)).0, failed start_text)
        else if posix.is_running end
        then (posix.destroy (posix.wait_for_finished (posix.kill end)), failed timeout_text)
        else (
          posix.destroy last,
          record {
            rc = posix.exit_code last;
            out = out_of posix 2 armed ++ out;
            err = err_of posix 2 armed ++ err;
          },
        ))
run_in_process_outcome_example =
    run_in_process_outcome posix (pos 500) 3 (codes "id") (pos 0) (codes "alice") shell 2 9 as_alice
      two_rounds (let h : 2 < 9 = omega arith in h)

three_rounds : Expires posix (pos 500) (λ w. 3)
unfolding after drain
three_rounds armed = ground arith

run_in_process-Settles_example :
    Settles posix
      (λ fuel. run_in_process posix fuel (pos 500) 3 (codes "id") (pos 0) (codes "alice"))
run_in_process-Settles_example =
    run_in_process-Settles posix (pos 500) (λ w. 3) three_rounds 3 (codes "id") (pos 0)
      (codes "alice")

-- The kernel lets a process of root switch, and no other.
may_switch : Bool → Credentials → Option Credentials
may_switch true c = some c
may_switch false c = none

may_switch-same : (b : Bool) (c c' : Credentials) → may_switch b c ≡ some c' → c' ≡ c
unfolding may_switch
may_switch-same true c c' h = cc
may_switch-same false c c' h = cc

abbrev kernel : Kernel
kernel = record {
  setgid = λ gid c. may_switch (c.uid == 0) (record c { gid = gid });
  setuid = λ uid c. may_switch (c.uid == 0) (record c { uid = uid });
  setgid_lem = λ gid c c' h. may_switch-same (c.uid == 0) (record c { gid = gid }) c' h;
  setuid_lem = λ uid c c' h. may_switch-same (c.uid == 0) (record c { uid = uid }) c' h;
}

abbrev root : Credentials
root = record { uid = 0; gid = 0; groups = 0 ∷ [] }

run_in_process_identity_example :
    ((text : Bytes) × (run_in_process posix 9 (pos 500) 3 (codes "id") (pos 0) (codes "alice")
        ≡ some (3, failed text)))
    ⊎ ((launch : Launch) × (uid : ℕ) × (gid : ℕ) × (run_in_process posix 9
            (pos 500)
            3
            (codes "id")
            (pos 0)
            (codes "alice")
          ≡ supervise posix 9 (pos 500) 3 launch)
        × (posix.getpwnam (codes "alice") ≡ some (uid, gid))
        × ((child_entry kernel launch.switch_to root ≡ exits 125)
            ⊎ (child_entry kernel launch.switch_to root
                ≡ executes (record root { uid = uid; gid = gid }))))
run_in_process_identity_example =
    run_in_process_identity posix (pos 500) 3 (codes "id") (pos 0) (codes "alice") refl refl 9
      kernel root

-- A user's command has root's group among its own.
groups_kept :
    child_entry kernel (some (1000, 100)) root
    ≡ executes (record { uid = 1000; gid = 100; groups = 0 ∷ [] })
unfolding child_entry may_switch
groups_kept = refl
