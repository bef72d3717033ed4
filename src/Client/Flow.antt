-- ===== src/Client/Flow.antt =====
-- `doRemCmdStrm` of src/client/RemSvcClient.cc and `processStream` of src/server/RemSvcServiceImpl.cc at
-- the two ends of one stream, step by step. Between them gRPC keeps what one end has written and the
-- other has not read; how many messages it keeps each way before `Write` waits is a parameter. A `Run` is
-- what happens before the call's deadline; a `Call` may be ended by it.
pub mod Progress
pub mod Outcome
pub mod Standstill
mod Tests
use rem_svc.Base.{
  ℕ, suc, ◌<◌, List, [], ◌∷◌, ◌++◌, Option, none, some, Bool, true, false, not, if◌then◌else◌,
  length, ◌≡◌,
}
use rem_svc.Base.Int.{ℤ, pos}
use rem_svc.Proto.{RemCmdMsg, RemResMsg, StatusCode, other, Status, status_ok, is_ok}
use rem_svc.Policy.{RegexEngine, Policy}
use rem_svc.Service.{State, CmdRunner}
use rem_svc.Service.Execute.{accepts, refusal, run_one}

-- The client: what it has not written, whether it has called `WritesDone`, what it has read, and what
-- `Finish` gave. The handler: the service, the response that it is about to write, and its status once
-- it has returned. The stream: the messages under way to the server, and to the client.
pub record Flow (W : Type 0) : Type 0 where
  pub todo : List RemCmdMsg
  pub closed : Bool
  pub received : List RemResMsg
  pub finished : Option Status
  pub service : State W
  pub pending : Option RemResMsg
  pub ended : Option Status
  pub up : List RemCmdMsg
  pub down : List RemResMsg

-- The stream is open.
abbrev pub opened : {W : Type 0} → State W → List RemCmdMsg → Flow W
opened s reqs = record {
  todo = reqs;
  closed = false;
  received = [];
  finished = none;
  service = s;
  pending = none;
  ended = none;
  up = [];
  down = [];
}

-- The client writes all its requests, stops where a write fails, which it does once the handler has
-- returned, and only then reads. The handler reads, checks, runs and writes, one message after the other.
pub data Step {engine : RegexEngine} {W : Type 0} (policy : Policy engine) (runner : CmdRunner W)
    (up_room down_room : ℕ) (s : Flow W) : Flow W → Type 0 where
  writes :
      (req : RemCmdMsg) (rest : List RemCmdMsg)
      → s.todo ≡ req ∷ rest
      → length s.up < up_room
      → Step policy runner up_room down_room s (record s { todo = rest; up = s.up ++ req ∷ [] })
  write_fails :
      (st : Status)
      → s.ended ≡ some st
      → (req : RemCmdMsg) (rest : List RemCmdMsg) → s.todo ≡ req ∷ rest
      → Step policy runner up_room down_room s (record s { todo = [] })
  writes_done :
      s.todo ≡ []
      → s.closed ≡ false
      → Step policy runner up_room down_room s (record s { closed = true })
  reads :
      (res : RemResMsg) (rest : List RemResMsg)
      → s.closed ≡ true
      → s.down ≡ res ∷ rest
      → Step policy runner up_room down_room s
          (record s { down = rest; received = s.received ++ res ∷ [] })
  finishes :
      (st : Status)
      → s.closed ≡ true
      → s.down ≡ []
      → s.ended ≡ some st
      → s.finished ≡ none
      → Step policy runner up_room down_room s (record s { finished = some st })
  handler_runs :
      (req : RemCmdMsg) (rest : List RemCmdMsg)
      → s.up ≡ req ∷ rest
      → s.pending ≡ none
      → s.ended ≡ none
      → accepts policy req ≡ true
      → Step policy runner up_room down_room s (record s {
        up = rest;
        service = (run_one runner s.service req).0;
        pending = some (run_one runner s.service req).1;
      })
  handler_refuses :
      (req : RemCmdMsg) (rest : List RemCmdMsg)
      → s.up ≡ req ∷ rest
      → s.pending ≡ none
      → s.ended ≡ none
      → accepts policy req ≡ false
      → Step policy runner up_room down_room s
          (record s { up = rest; ended = some (refusal policy req) })
  handler_returns :
      s.up ≡ []
      → s.closed ≡ true
      → s.pending ≡ none
      → s.ended ≡ none
      → Step policy runner up_room down_room s (record s { ended = some status_ok })
  handler_writes :
      (res : RemResMsg)
      → s.pending ≡ some res
      → length s.down < down_room
      → Step policy runner up_room down_room s
          (record s { pending = none; down = s.down ++ res ∷ [] })

-- A run of so many steps from the opening of the stream.
pub data Run {engine : RegexEngine} {W : Type 0} (policy : Policy engine) (runner : CmdRunner W)
    (up_room down_room : ℕ) (s : State W) (reqs : List RemCmdMsg) : ℕ → Flow W → Type 0 where
  opens : Run policy runner up_room down_room s reqs 0 (opened s reqs)
  goes_on :
      {steps : ℕ} {f g : Flow W}
      → Run policy runner up_room down_room s reqs steps f
      → Step policy runner up_room down_room f g
      → Run policy runner up_room down_room s reqs (suc steps) g

-- `DEADLINE_EXCEEDED`
abbrev pub deadline_exceeded : StatusCode
deadline_exceeded = other 4

-- What `doRemCmdStrm` returns, once `Finish` has given the status.
unfoldable pub returned : Option Status → Option ℤ
returned none = none
returned (some status) = if not (is_ok status) then some (pos 1) else some (pos 0)

-- The client's call with its deadline, which may come between any two steps: then `Write` fails, so that
-- the loop ends with requests left, `Read` gives at most the responses that have arrived, and `Finish`
-- gives the status for it. The flag says that it has come.
pub data Call {engine : RegexEngine} {W : Type 0} (policy : Policy engine) (runner : CmdRunner W)
    (up_room down_room : ℕ) (s : State W) (reqs : List RemCmdMsg) : Flow W → Bool → Type 0 where
  in_time :
      {steps : ℕ} {f : Flow W}
      → Run policy runner up_room down_room s reqs steps f
      → Call policy runner up_room down_room s reqs f false
  expires :
      {f : Flow W} (st : Status) (arrived lost : List RemResMsg)
      → Call policy runner up_room down_room s reqs f false
      → f.finished ≡ none
      → f.down ≡ arrived ++ lost
      → st.code ≡ deadline_exceeded
      → Call policy runner up_room down_room s reqs
          (record f {
            closed = true;
            received = f.received ++ arrived;
            finished = some st;
            down = [];
          })
          true
