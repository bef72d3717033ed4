-- ===== src/Client/Flow/Tests.antt =====
-- Runs of a stream between the client and the server (src/client/RemSvcClient.cc,
-- src/server/RemSvcServiceImpl.cc), with room for one message each way.
use rem_svc.Base.{
  ℕ, ◌+◌, ◌*◌, ◌≤◌, List, [], ◌∷◌, none, some, true, false, codes, length, ◌≡◌, ◌≢◌, ◌⊎◌, refl,
  arith,
}
use rem_svc.Base.Int.{pos}
use rem_svc.Proto.{RemCmdMsg, status_ok}
use rem_svc.Policy.{check_allowed}
use rem_svc.Service.{process_stream}
use rem_svc.Service.Execute.{accepts, run_one}
use rem_svc.Client.Flow.{
  Flow, opened, writes, writes_done, reads, finishes, handler_runs, handler_returns, handler_writes,
  Run, opens, goes_on, Call, in_time, expires, returned,
}
use rem_svc.Client.Flow.Progress.{CanStep, Run-CanStep}
use rem_svc.Client.Flow.Standstill.{Call_overdue}
use rem_svc.Client.Flow.Outcome.{Run-process_stream}
use rem_svc.Samples.Naps.{too_late}
use rem_svc.Samples.{policy, echo, idle, request}

abbrev ls : RemCmdMsg
ls = request (codes "ls")

ls_accepted : accepts policy ls ≡ true
unfolding accepts check_allowed
ls_accepted = refl

abbrev four : List RemCmdMsg
four = ls ∷ ls ∷ ls ∷ ls ∷ []

-- The first request is under way.
abbrev begun : Flow (List (List ℕ))
begun = record (opened idle four) { todo = ls ∷ ls ∷ ls ∷ []; up = ls ∷ [] }

begun_run : Run policy echo 1 1 idle four 1 begun
begun_run = goes_on opens (writes ls (ls ∷ ls ∷ ls ∷ []) refl (omega arith))

-- The deadline comes while the second request is not sent yet.
abbrev given_up : Flow (List (List ℕ))
given_up = record begun { closed = true; finished = some too_late }

given_up_call : Call policy echo 1 1 idle four given_up true
given_up_call = expires too_late [] [] (in_time begun_run) refl refl refl

Call_overdue_example :
    (given_up.todo ≢ [])
    × (((true ≡ false) × (given_up.received ≡ []) × (given_up.finished ≡ none))
        ⊎ ((true ≡ true) × (returned given_up.finished ≡ some (pos 1))))
Call_overdue_example =
    Call_overdue policy echo 1 1 idle four given_up true
      (ls_accepted, (ls_accepted, (ls_accepted, (ls_accepted, tt)))) (omega arith) given_up_call

abbrev alone : List RemCmdMsg
alone = ls ∷ []

-- The request is read, its response written and read, and the call ended.
abbrev answered : Flow (List (List ℕ))
answered = record (opened idle alone) {
  todo = [];
  closed = true;
  received = (run_one echo idle ls).1 ∷ [];
  finished = some status_ok;
  service = (run_one echo idle ls).0;
  ended = some status_ok;
}

answered_run : Run policy echo 1 1 idle alone 7 answered
answered_run =
    goes_on
      (goes_on
        (goes_on
          (goes_on
            (goes_on
              (goes_on (goes_on opens (writes ls [] refl (omega arith))) (writes_done refl refl))
              (handler_runs ls [] refl refl refl ls_accepted))
            (handler_writes _ refl (omega arith)))
          (handler_returns refl refl refl refl))
        (reads _ [] refl refl))
      (finishes status_ok refl refl refl refl)

Run-process_stream_example :
    (answered.service, status_ok, answered.received) ≡ process_stream policy echo idle alone []
Run-process_stream_example =
    Run-process_stream policy echo 1 1 idle alone 7 answered status_ok answered_run refl

Run-CanStep_example :
    (7 ≤ 4 * length alone + 3) × (CanStep policy echo 1 1 answered ⊎ (answered.finished ≢ none))
Run-CanStep_example =
    Run-CanStep policy echo 1 1 idle alone 7 answered (omega arith) (omega arith) (omega arith)
      answered_run
