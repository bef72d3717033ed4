-- ===== src/Calls/Tests.antt =====
-- Calls to a server that is up (src/server/GrpcServerThread.cc).
use rem_svc.Base.{
  List, [], ◌∷◌, none, some, true, false, not, Bytes, codes, bytes_eq, is_empty, if◌then◌else◌, ◌≡◌,
  ◌⊎◌, refl, ap, arith,
}
use rem_svc.Base.Maps.{TextMap, emplace, lookup}
use rem_svc.Proto.{RemCmdMsg, PingMsg, status_ok, is_ok, empty_res}
use rem_svc.Auth.{make_processor, auth_header, const_time_equal, process}
use rem_svc.Policy.{make_policy, check_allowed}
use rem_svc.Service.{State, get_status, process_stream}
use rem_svc.Service.Execute.{accepts, refusal, run_one}
use rem_svc.Service.Stream.{accepted}
use rem_svc.Calls.{call_rem_cmd, call_stream, call_ping, call_get_status}
use rem_svc.Calls.Probes.{call_probes-Presents}
use rem_svc.Base.Int.{pos}
use rem_svc.Calls.Access.{Presents, verdict, call_rem_cmd-authenticate, call_stream_changed}
use rem_svc.Samples.{
  documented, runners, setup, starts, up, builds, text_engine, files, home_only, with_config,
  unset_vars, disk, echo, idle, request,
}

abbrev alice : TextMap
alice = (auth_header, codes "Bearer alice") ∷ []

call_rem_cmd-authenticate_example :
    call_rem_cmd runners up documented alice idle (request (codes "ls")) ≡ (
      let policy = make_policy text_engine [] [] in
      let (s', res) = run_one echo idle (request (codes "ls")) in
      let st = verdict setup.auth_tokens alice in
      if not (is_ok st)
      then (idle, st, none)
      else if accepts policy (request (codes "ls"))
      then (s', status_ok, some res)
      else (idle, refusal policy (request (codes "ls")), some empty_res))
call_rem_cmd-authenticate_example =
    call_rem_cmd-authenticate runners files home_only with_config unset_vars disk true setup up
      starts builds alice idle documented (request (codes "ls"))

abbrev session : List RemCmdMsg
session = request (codes "ls") ∷ request (codes "ls -l") ∷ []

counted : (call_stream runners up documented alice idle session).0.commands_executed ≡ 2
unfolding call_stream process make_processor const_time_equal emplace process_stream make_policy
    check_allowed bytes_eq lookup
counted = refl

moved : ¬ (call_stream runners up documented alice idle session).0 ≡ idle
moved e =
    let none_counted = ap (λ (s : State (List Bytes)). s.commands_executed) e in
    absurd (omega (arith, counted, none_counted))

call_stream_changed_example :
    Presents setup.auth_tokens alice
    × (is_empty (accepted (make_policy text_engine [] []) session) ≡ false)
call_stream_changed_example =
    call_stream_changed runners files home_only with_config unset_vars disk true setup up starts
      builds alice idle documented session refl moved

abbrev hello : PingMsg
hello = record { seq = pos 1; time = pos 0; payload = codes "hello" }

call_probes-Presents_example :
    let (s1, st1, pong) = call_ping up documented alice idle hello in
    let (s2, st2, report) = call_get_status up documented 0 5 alice idle in
    (s1 ≡ idle)
    × (s2 ≡ idle)
    × ((Presents setup.auth_tokens alice
          × (pong ≡ some (record { seq = pos 1; time = pos 0; payload = codes "hello" }))
          × (report ≡ some (get_status 0 5 idle).1))
        ⊎ ((pong ≡ none) × (report ≡ none) × (st1 ≡ st2) × (is_ok st1 ≡ false)))
call_probes-Presents_example =
    call_probes-Presents runners files home_only with_config unset_vars disk true setup up starts
      builds alice idle documented documented hello 0 5 refl
