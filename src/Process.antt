-- ===== src/Process.antt =====
-- `runInProcess` of src/server/RemSvcServiceImpl.cc, the command runner of the server. `QProcess`,
-- `QStandardPaths`, `getpwnam_r` and the identity calls are a parameter; the polling loop runs on fuel,
-- one unit for each round.
pub mod Rounds
pub mod Capture
pub mod Identity
pub mod Clock
pub mod Overrun
mod Tests
use rem_svc.Base.{
  ℕ, zero, suc, List, [], ◌∷◌, ◌++◌, Option, none, some, Bool, false, not, Bytes, codes, is_empty,
  ◌==◌, if◌then◌else◌, ◌≡◌,
}
use rem_svc.Base.Int.{ℤ, pos, negsuc}
use rem_svc.Service.{Outcome}

-- What is handed to `QProcess`: program, arguments, and the uid and gid of the child modifier.
pub record Launch : Type 0 where
  pub program : Bytes
  pub arguments : List Bytes
  pub switch_to : Option (ℕ × ℕ)

-- The operating system and one `QProcess`, of which a world `W` holds the state and the clock.
pub record Os (W : Type 0) : Type 0 where
  -- `Q_OS_WIN`
  pub windows : Bool
  -- `QString::fromUtf8` and back, as the child sees its argument.
  pub to_argument : Bytes → Bytes
  -- `QStandardPaths::findExecutable("pwsh")`
  pub pwsh_path : Bytes
  -- `getpwnam_r` of the name as a C string: the uid and gid, none if it fails or finds nobody.
  pub getpwnam : Bytes → Option (ℕ × ℕ)
  pub start : W → Launch → W
  pub wait_for_started : W → W × Bool
  pub close_write_channel : W → W
  -- `hasExpired()` of a timer of so many milliseconds, set in the first world and asked in the second.
  pub has_expired : ℤ → W → W → Bool
  -- `waitForReadyRead(50)`
  pub wait_for_ready_read : W → W
  -- `readAllStandardOutput()` and `readAllStandardError()`
  pub read_output : W → W × Bytes
  pub read_error : W → W × Bytes
  -- `state() != QProcess::NotRunning`
  pub is_running : W → Bool
  pub kill : W → W
  -- `waitForFinished(1000)`
  pub wait_for_finished : W → W
  pub exit_code : W → ℤ
  -- the destructor of `QProcess`, which kills a process that still runs and waits for it
  pub destroy : W → W

pub data Plan : Type 0 where
  refused : Bytes → Plan
  planned : Launch → Plan

abbrev pub pwsh_text : Bytes
pwsh_text = codes "PowerShell (pwsh) is not installed on this system"

abbrev pub user_text : Bytes
user_text = codes "user not found: "

abbrev pub start_text : Bytes
start_text = codes "process failed to start"

abbrev pub timeout_text : Bytes
timeout_text = codes "process timed out"

-- `cmdtyp == 1`
abbrev pub is_powershell : ℤ → Bool
is_powershell (pos n) = n == 1
is_powershell (negsuc n) = false

module _ {W : Type 0} (os : Os W) where
  -- The user switch of the POSIX branch, on a program that has been chosen.
  pub switch_user : Bytes → Bytes → List Bytes → Plan
  switch_user cmdusr program arguments =
      if is_empty cmdusr
      then planned (record { program = program; arguments = arguments; switch_to = none })
      else elim (os.getpwnam cmdusr) [
        | none ↦ refused (user_text ++ cmdusr)
        | some ids ↦
            planned (record { program = program; arguments = arguments; switch_to = some ids })
      ]

  pub plan_posix : Bytes → ℤ → Bytes → Plan
  unfolding switch_user
  plan_posix cmd cmdtyp cmdusr =
      if is_powershell cmdtyp
      then (if is_empty os.pwsh_path
          then refused pwsh_text
          else switch_user cmdusr os.pwsh_path (codes "-Command" ∷ os.to_argument cmd ∷ []))
      else switch_user cmdusr (codes "/bin/sh") (codes "-c" ∷ os.to_argument cmd ∷ [])

  -- On Windows the user is only logged.
  pub plan_windows : Bytes → ℤ → Plan
  plan_windows cmd cmdtyp =
      if is_powershell cmdtyp
      then planned (record {
        program = codes "powershell.exe";
        arguments = codes "-Command" ∷ os.to_argument cmd ∷ [];
        switch_to = none;
      })
      else planned (record {
        program = codes "cmd.exe";
        arguments = codes "/C" ∷ os.to_argument cmd ∷ [];
        switch_to = none;
      })

  unfoldable pub plan : Bytes → ℤ → Bytes → Plan
  unfolding plan_posix plan_windows
  plan cmd cmdtyp cmdusr =
      if os.windows then plan_windows cmd cmdtyp else plan_posix cmd cmdtyp cmdusr

-- An early return: `err` is set, `out` stays empty.
abbrev pub failed : Bytes → Outcome
failed text = record { rc = pos 1; out = []; err = text }

module _ {W : Type 0} (os : Os W) where
  -- What both channels hold.
  unfoldable pub drain : W → W × Bytes × Bytes
  drain w = let (w', out) = os.read_output w in let (w'', err) = os.read_error w' in (w'', out, err)

  -- The polling loop, at `w`, with the timer set at `armed`; `none` means that the fuel ran out.
  pub poll_loop : ℕ → ℤ → W → W → Bytes → Bytes → Option (W × Bytes × Bytes)
  poll_loop zero timeout_ms armed w out_all err_all = none
  poll_loop (suc fuel) timeout_ms armed w out_all err_all =
      let (w', out, err) = drain (os.wait_for_ready_read w) in
      let next = poll_loop fuel timeout_ms armed w' (out_all ++ out) (err_all ++ err) in
      if os.has_expired timeout_ms armed w
      then some (w, out_all, err_all)
      else if os.is_running w'
      then next
      else some (w', out_all ++ out, err_all ++ err)

  -- Behind the loop. `err` is set only where there is some, and is empty otherwise, as it was handed in.
  pub collect : W → Bytes → Bytes → W × Outcome
  unfolding drain
  collect w out_all err_all =
      let (w', out, err) = drain w in
      if os.is_running w
      then (os.destroy (os.wait_for_finished (os.kill w)), failed timeout_text)
      else (
        os.destroy w',
        record { rc = os.exit_code w'; out = out_all ++ out; err = err_all ++ err },
      )

  abbrev pub collect_result : Option (W × Bytes × Bytes) → Option (W × Outcome)
  collect_result none = none
  collect_result (some (w, out_all, err_all)) = some (collect w out_all err_all)

  pub supervise : ℕ → ℤ → W → Launch → Option (W × Outcome)
  supervise fuel timeout_ms w launch =
      let (w', started) = os.wait_for_started (os.start w launch) in
      let armed = os.close_write_channel w' in
      if not started
      then some (os.destroy w', failed start_text)
      else collect_result (poll_loop fuel timeout_ms armed armed [] [])

  pub launch_plan : ℕ → ℤ → W → Plan → Option (W × Outcome)
  launch_plan fuel timeout_ms w (refused text) = some (w, failed text)
  launch_plan fuel timeout_ms w (planned launch) = supervise fuel timeout_ms w launch

  -- `runInProcess`, with fuel for its loop.
  unfoldable pub run_in_process : ℕ → ℤ → W → Bytes → ℤ → Bytes → Option (W × Outcome)
  unfolding launch_plan plan supervise collect poll_loop
  run_in_process fuel timeout_ms w cmd cmdtyp cmdusr =
      launch_plan fuel timeout_ms w (plan os cmd cmdtyp cmdusr)

-- The credentials of a process.
pub record Credentials : Type 0 where
  pub uid : ℕ
  pub gid : ℕ
  pub groups : List ℕ

-- `setgid` and `setuid` of a process that may change its identity: `none` where the call fails.
pub record Kernel : Type 0 where
  pub setgid : ℕ → Credentials → Option Credentials
  pub setuid : ℕ → Credentials → Option Credentials
  pub setgid_lem :
      (gid : ℕ) (c c' : Credentials) → setgid gid c ≡ some c' → c' ≡ record c { gid = gid }
  pub setuid_lem :
      (uid : ℕ) (c c' : Credentials) → setuid uid c ≡ some c' → c' ≡ record c { uid = uid }

-- The child modifier, between fork and exec: the group first, then the user. The child executes the
-- command under its credentials, or exits.
pub data Entry : Type 0 where
  executes : Credentials → Entry
  exits : ℕ → Entry

pub child_entry : Kernel → Option (ℕ × ℕ) → Credentials → Entry
child_entry kernel none c = executes c
child_entry kernel (some (uid, gid)) c = elim (kernel.setgid gid c) [
  | none ↦ exits 125
  | some c' ↦ elim (kernel.setuid uid c') [ none ↦ exits 125 | some c'' ↦ executes c'' ]
]
