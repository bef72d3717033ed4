-- ===== src/Process/Identity.antt =====
-- Under whose identity `runInProcess` (src/server/RemSvcServiceImpl.cc) runs a command.
use rem_svc.Base.{
  ℕ, List, ◌++◌, some, false, Bytes, is_empty, ◌≡◌, ◌⊎◌, refl, ap, ◌∙◌, Bool-cases, Option-cases,
  inl, inr,
}
use rem_svc.Base.Int.{ℤ}
use rem_svc.Process.{
  Launch, Os, Plan, refused, planned, is_powershell, switch_user, plan_posix, plan, failed,
  supervise, launch_plan, run_in_process, user_text, pwsh_text, Credentials, Kernel, Entry,
  executes, exits, child_entry,
}
use rem_svc.Process.Capture.{run_in_process-launch_plan}

-- A child that switches exits, or executes the command with both identities taken on.
abbrev Switches : ℕ → ℕ → Credentials → Entry → Type 0
Switches uid gid c entry =
    (entry ≡ exits 125) ⊎ (entry ≡ executes (record c { uid = uid; gid = gid }))

child_entry-Switches :
    (kernel : Kernel) (uid gid : ℕ) (c : Credentials)
    → Switches uid gid c (child_entry kernel (some (uid, gid)) c)
unfolding child_entry
child_entry-Switches kernel uid gid c = elim (Option-cases (kernel.setgid gid c)) [
  | inl e ↦ rw (e, child_entry) (inl refl)
  | inr (c', e) ↦ elim (Option-cases (kernel.setuid uid c')) [
    | inl f ↦ rw (e, child_entry, f) (inl refl)
    | inr (c'', f) ↦
        let first = kernel.setgid_lem gid c c' e in
        let both : c'' ≡ record c { uid = uid; gid = gid } =
          kernel.setuid_lem uid c' c'' f ∙ ap (λ (d : Credentials). record d { uid = uid }) first in
        rw (e, child_entry, f) (inr (ap executes both))
  ]
]

module _ {W : Type 0} (os : Os W) (timeout_ms : ℤ) (w : W) (cmd : Bytes) (cmdtyp : ℤ)
    (cmdusr : Bytes) (posix : os.windows ≡ false) (named : is_empty cmdusr ≡ false) where
  -- The plan refuses, or launches under the identity of the named user.
  abbrev IsNamed : Plan → Type 0
  IsNamed p =
      ((text : Bytes) × (p ≡ refused text))
      ⊎ ((launch : Launch) × (uid : ℕ) × (gid : ℕ) × (p ≡ planned launch)
          × (os.getpwnam cmdusr ≡ some (uid, gid))
          × (launch.switch_to ≡ some (uid, gid)))

  switch_user-IsNamed :
      (program : Bytes) (arguments : List Bytes) → IsNamed (switch_user os cmdusr program arguments)
  switch_user-IsNamed program arguments = elim (Option-cases (os.getpwnam cmdusr)) [
    | inl e ↦ inl (user_text ++ cmdusr, unfold switch_user in rw (named, e))
    | inr ((uid, gid), e) ↦ inr (
      record { program = program; arguments = arguments; switch_to = some (uid, gid) },
      uid,
      gid,
      unfold switch_user in rw (named, e),
      e,
      refl,
    )
  ]

  plan_posix-IsNamed : IsNamed (plan_posix os cmd cmdtyp cmdusr)
  plan_posix-IsNamed = elim (Bool-cases (is_powershell cmdtyp)) [
    | inl e ↦ elim (Bool-cases (is_empty os.pwsh_path)) [
      | inl f ↦ inl (pwsh_text, unfold plan_posix in rw (e, f))
      | inr f ↦ unfold plan_posix in rw (e, f) (switch_user-IsNamed _ _)
    ]
    | inr e ↦ unfold plan_posix in rw e (switch_user-IsNamed _ _)
  ]

  plan-IsNamed : IsNamed (plan os cmd cmdtyp cmdusr)
  plan-IsNamed = unfold plan in rw posix plan_posix-IsNamed

  -- On POSIX a command with a user name is either not run at all, with code 1 and nothing in the
  -- world changed, or launched under the uid and gid that the user database has for that name: then the
  -- child exits with 125, or becomes the command with both taken on. Its supplementary groups are those
  -- of the server still.
  pub run_in_process_identity :
      (fuel : ℕ) (kernel : Kernel) (c : Credentials)
      → ((text : Bytes) × (run_in_process os fuel timeout_ms w cmd cmdtyp cmdusr
            ≡ some (w, failed text)))
        ⊎ ((launch : Launch) × (uid : ℕ) × (gid : ℕ) × (run_in_process os fuel timeout_ms w cmd
                cmdtyp cmdusr
              ≡ supervise os fuel timeout_ms w launch)
            × (os.getpwnam cmdusr ≡ some (uid, gid))
            × ((child_entry kernel launch.switch_to c ≡ exits 125)
                ⊎ (child_entry kernel launch.switch_to c
                    ≡ executes (record c { uid = uid; gid = gid }))))
  run_in_process_identity fuel kernel c = elim plan-IsNamed [
    | inl (text, e) ↦
        inl (text, whole ∙ ap (launch_plan os fuel timeout_ms w) e ∙ unfold launch_plan in refl)
    | inr (launch, uid, gid, e, found, switched) ↦ inr (
      launch,
      uid,
      gid,
      whole ∙ ap (launch_plan os fuel timeout_ms w) e ∙ unfold launch_plan in refl,
      found,
      rw switched (child_entry-Switches kernel uid gid c),
    )
  ]
    where
      whole :
          run_in_process os fuel timeout_ms w cmd cmdtyp cmdusr
          ≡ launch_plan os fuel timeout_ms w (plan os cmd cmdtyp cmdusr)
      whole = run_in_process-launch_plan os fuel timeout_ms w cmd cmdtyp cmdusr
