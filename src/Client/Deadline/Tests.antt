-- ===== src/Client/Deadline/Tests.antt =====
-- The deadline of the client's calls, on a system where every command sleeps for ever.
use rem_svc.Base.{
  ℕ, bytes_eq, [], ◌∷◌, none, true, false, codes, is_empty, if◌then◌else◌, ◌≡◌, refl, arith,
}
use rem_svc.Base.Int.{pos}
use rem_svc.Proto.{RemCmdMsg, is_ok}
use rem_svc.Policy.{check_allowed}
use rem_svc.Service.{State, CmdRunner}
use rem_svc.Service.Execute.{run_one}
use rem_svc.Process.{Launch, planned, plan, timeout_text}
use rem_svc.Process.Rounds.{default_runner}
use rem_svc.Process.Overrun.{Outlasts}
use rem_svc.Client.{Stub, make_request, make_context, do_rem_cmd}
use rem_svc.Client.Deadline.{Channel, client, do_rem_cmd_in_time, do_rem_cmd_overrun}
use rem_svc.Samples.{text_engine, policy}
use rem_svc.Samples.Naps.{naps, ticks, naps_expire, naps_last, prompt_channel}

abbrev at_500 : State ℕ
at_500 = record { commands_executed = 0; world = 500 }

-- With a timeout of two seconds.
abbrev brief : CmdRunner ℕ
brief = default_runner naps (pos 2000) (λ w. 40) (naps_expire 40)

abbrev brief_client : Stub (State ℕ)
brief_client = client ticks policy 2000 (λ w. 40) (naps_expire 40) (prompt_channel policy brief)

do_rem_cmd_in_time_example :
    do_rem_cmd brief_client at_500 (codes "ls") (pos 0) (pos 0) (codes "") ≡ (
      let (s', res) = run_one brief at_500 (make_request (codes "ls") (pos 0) (pos 0) (codes "")) in
      if is_empty (check_allowed text_engine policy (codes "ls"))
      then (s', res.rc)
      else (at_500, pos 1))
do_rem_cmd_in_time_example =
    do_rem_cmd_in_time ticks policy 2000 (λ w. 40) (naps_expire 40) (prompt_channel policy brief)
      at_500 (codes "ls") (pos 0) (pos 0) (codes "") (omega arith)

-- With the timeout of the server's defaults.
abbrev patient : CmdRunner ℕ
patient = default_runner naps (pos 30000) (λ w. 600) (naps_expire 600)

abbrev channel : Channel policy patient (λ w. w)
channel = prompt_channel policy patient

abbrev patient_client : Stub (State ℕ)
patient_client = client ticks policy 30000 (λ w. 600) (naps_expire 600) channel

abbrev shell : Launch
shell = record {
  program = codes "/bin/sh";
  arguments = codes "-c" ∷ codes "ls" ∷ [];
  switch_to = none;
}

abbrev sent : RemCmdMsg
sent = make_request (codes "ls") (pos 0) (pos 0) (codes "")

by_the_shell : plan naps sent.cmd sent.cmdtyp sent.cmdusr ≡ planned shell
unfolding plan make_request
by_the_shell = refl

ls-Outlasts : Outlasts naps 30000 at_500.world sent.cmd sent.cmdtyp sent.cmdusr
ls-Outlasts = record {
  launch = shell;
  rounds = 600;
  chosen = by_the_shell;
  begun = refl;
  expired = naps_last 600 500 500 30000 (omega arith);
  runs = refl;
}

ls_allowed : is_empty (check_allowed text_engine policy (codes "ls")) ≡ true
unfolding check_allowed bytes_eq
ls_allowed = refl

do_rem_cmd_overrun_example :
    let (s', res) = run_one patient at_500 sent in
    (res.err ≡ timeout_text)
    × (is_ok (channel.stub.rem_cmd at_500 (make_context patient_client at_500) sent).1 ≡ false)
    × (do_rem_cmd patient_client at_500 (codes "ls") (pos 0) (pos 0) (codes "") ≡ (s', pos 1))
do_rem_cmd_overrun_example =
    do_rem_cmd_overrun ticks policy 30000 (λ w. 600) (naps_expire 600) channel at_500 (codes "ls")
      (pos 0) (pos 0) (codes "") (omega arith) ls_allowed ls-Outlasts
