-- ===== src/Service/Threads/Tests.antt =====
-- A run of two calls at once of the handlers of src/server/RemSvcServiceImpl.cc.
use rem_svc.Base.{
  ℕ, zero, suc, ◌≤◌, ◌%◌, ◌^◌, List, [], ◌∷◌, ◌++◌, codes, length, true, All, ◌≡◌, refl,
}
use rem_svc.Base.Int.{pos}
use rem_svc.Proto.{RemCmdMsg, RemResMsg, Status}
use rem_svc.Policy.{check_allowed}
use rem_svc.Service.{Outcome, process_stream}
use rem_svc.Service.Execute.{refusal}
use rem_svc.Service.Stream.{accepted}
use rem_svc.Service.Threads.{
  Handler, begin_stream, begin_unary, returned, advance, Service, moves, streams, calls, Reachable,
  start, later, check,
}
use rem_svc.Service.Threads.Track.{requests, responses}
use rem_svc.Service.Threads.Isolation.{replay, outcomes, ran-accepted, returned-process_stream}
use rem_svc.Service.Threads.Counter.{total, has_returned, acceptable, counter-acceptable}
use rem_svc.Samples.{policy, request}

abbrev done : Outcome
done = record { rc = pos 0; out = codes "ok"; err = [] }

-- So many steps of one handler.
turns : ℕ → ℕ × Handler → ℕ × Handler
turns zero s = s
turns (suc k) s = turns k (advance policy done s.0 s.1)

abbrev first_of : ℕ × Handler → Handler → Service
first_of s other = record { counter = s.0; handlers = s.1 ∷ other ∷ [] }

abbrev second_of : Handler → ℕ × Handler → Service
second_of other s = record { counter = s.0; handlers = other ∷ s.1 ∷ [] }

first-Reachable :
    (k : ℕ) (s : ℕ × Handler) (other : Handler)
    → Reachable policy (first_of s other)
    → Reachable policy (first_of (turns k s) other)
unfolding turns
first-Reachable zero s other r = r
first-Reachable (suc k) s other r =
    first-Reachable k (advance policy done s.0 s.1) other
      (later r (moves [] s.1 (other ∷ []) done refl))

second-Reachable :
    (k : ℕ) (other : Handler) (s : ℕ × Handler)
    → Reachable policy (second_of other s)
    → Reachable policy (second_of other (turns k s))
unfolding turns
second-Reachable zero other s r = r
second-Reachable (suc k) other s r =
    second-Reachable k other (advance policy done s.0 s.1)
      (later r (moves (other ∷ []) s.1 [] done refl))

-- A stream of an allowed and a denied command, and a denied command on its own.
abbrev stream : Handler
stream = begin_stream (request (codes "ls a") ∷ request (codes "rm b") ∷ [])

abbrev unary : Handler
unary = begin_unary (request (codes "rm c"))

both_begun : Reachable policy (first_of (0, stream) unary)
both_begun =
    later (later start (streams (request (codes "ls a") ∷ request (codes "rm b") ∷ [])))
      (calls (request (codes "rm c")))

-- The stream has run its first command and not counted it yet.
abbrev halfway : Service
halfway = first_of (turns 3 (0, stream)) unary

halfway-Reachable : Reachable policy halfway
halfway-Reachable = first-Reachable 3 (0, stream) unary both_begun

-- Both have returned.
abbrev finished : Service
finished = second_of (turns 7 (0, stream)).1 (turns 1 ((turns 7 (0, stream)).0, unary))

finished-Reachable : Reachable policy finished
finished-Reachable =
    second-Reachable 1 (turns 7 (0, stream)).1 ((turns 7 (0, stream)).0, unary)
      (first-Reachable 7 (0, stream) unary both_begun)

finished_counter : finished.counter ≡ 1
unfolding turns advance check check_allowed
finished_counter = refl

All-has_returned : All (λ (h : Handler). has_returned h.pc ≡ true) finished.handlers
unfolding turns advance check check_allowed
All-has_returned = (refl, (refl, tt))

ran-accepted_example :
    (after : List RemCmdMsg) × (due : List RemResMsg) × (accepted policy
        (turns 3 (0, stream)).1.messages
      ≡ requests (turns 3 (0, stream)).1.ran ++ after)
    × ((turns 3 (0, stream)).1.written ++ due ≡ responses (turns 3 (0, stream)).1.ran)
    × (length due ≤ 1)
ran-accepted_example =
    ran-accepted policy halfway-Reachable [] (turns 3 (0, stream)).1 (unary ∷ []) refl

abbrev streamed : Handler
streamed = (turns 7 (0, stream)).1

abbrev denied : Status
denied = refusal policy (request (codes "rm b"))

streamed_returned : streamed.pc ≡ returned denied
unfolding turns advance check check_allowed refusal
streamed_returned = refl

returned-process_stream_example :
    let alone =
      process_stream policy replay
        (record { commands_executed = 5; world = outcomes streamed.ran })
        streamed.messages
        [] in
    (alone.0.world ≡ []) × (alone.1 ≡ denied) × (alone.2 ≡ streamed.written)
returned-process_stream_example =
    returned-process_stream policy finished-Reachable [] streamed
      ((turns 1 ((turns 7 (0, stream)).0, unary)).1 ∷ []) denied 5 refl streamed_returned

counter-acceptable_example : finished.counter ≡ total (acceptable policy) finished.handlers % 2 ^ 64
counter-acceptable_example = counter-acceptable policy finished-Reachable All-has_returned
