-- ===== src/Client/Flow/Standstill.antt =====
-- When a stream between src/client/RemSvcClient.cc and src/server/RemSvcServiceImpl.cc does not come to
-- its end: the client reads no response before it has written all its requests.
use mathlib.Core.Path.{subst}
use rem_svc.Base.{
  ℕ, ◌+◌, ◌≤◌, List, [], ◌∷◌, Option, none, some, true, false, All, All-append, length,
  length-append, Bool, false, ◌≡◌, ◌≢◌, ◌⊎◌, inl, inr, ap, refl, arith,
}
use rem_svc.Base.Int.{pos}
use rem_svc.Proto.{RemCmdMsg, Status}
use rem_svc.Policy.{RegexEngine, Policy}
use rem_svc.Service.{State, CmdRunner}
use rem_svc.Service.Execute.{accepts}
use rem_svc.Client.Flow.{
  Flow, Step, writes, write_fails, writes_done, reads, finishes, handler_runs, handler_refuses,
  handler_returns, handler_writes, Run, opens, goes_on, deadline_exceeded, returned, Call, in_time,
  expires,
}
use rem_svc.Client.Flow.Progress.{count, waiting}

count_le {ℓ} : {A : Type ℓ} (o : Option A) → count o ≤ 1
count_le none = omega arith
count_le (some a) = omega arith

module _ {engine : RegexEngine} {W : Type 0} (policy : Policy engine) (runner : CmdRunner W)
    (up_room down_room n : ℕ) where
  abbrev Accepted : List RemCmdMsg → Type 0
  Accepted = All (λ req. accepts policy req ≡ true)

  -- The client still writes, and all `n` messages are somewhere on the way.
  record IsStuffed (f : Flow W) : Type 0 where
    writing : f.closed ≡ false
    unread : f.received ≡ []
    unfinished : f.finished ≡ none
    running : f.ended ≡ none
    kept : waiting f ≡ n
    up_bound : length f.up ≤ up_room
    down_bound : length f.down ≤ down_room
    todo_accepted : Accepted f.todo
    up_accepted : Accepted f.up

  Step-IsStuffed :
      (f g : Flow W)
      → up_room + down_room + 2 ≤ n
      → Step policy runner up_room down_room f g
      → IsStuffed f
      → IsStuffed g
  Step-IsStuffed f g many (writes req rest e room) h =
      let fits = subst Accepted e h.todo_accepted in
      record {
        writing = h.writing;
        unread = h.unread;
        unfinished = h.unfinished;
        running = h.running;
        kept = omega (arith, h.kept, ap length e, length-append f.up (req ∷ []));
        up_bound = omega (arith, room, length-append f.up (req ∷ []));
        down_bound = h.down_bound;
        todo_accepted = fits.1;
        up_accepted =
            All-append (λ q. accepts policy q ≡ true) f.up (req ∷ []) h.up_accepted (fits.0, tt);
      }
  Step-IsStuffed f g many (write_fails st e req rest t) h = absurd (ground (arith, e, h.running))
  Step-IsStuffed f g many (writes_done e c) h =
      absurd
        (omega (arith, many, h.kept, h.up_bound, h.down_bound, ap length e, count_le f.pending))
  Step-IsStuffed f g many (reads res rest c e) h = absurd (ground (arith, c, h.writing))
  Step-IsStuffed f g many (finishes st c d e n') h = absurd (ground (arith, c, h.writing))
  Step-IsStuffed f g many (handler_runs req rest e p n' a) h = record {
    writing = h.writing;
    unread = h.unread;
    unfinished = h.unfinished;
    running = h.running;
    kept = omega (arith, h.kept, ap length e, ap count p);
    up_bound = omega (arith, h.up_bound, ap length e);
    down_bound = h.down_bound;
    todo_accepted = h.todo_accepted;
    up_accepted = (subst Accepted e h.up_accepted).1;
  }
  Step-IsStuffed f g many (handler_refuses req rest e p n' a) h =
      absurd (ground (arith, a, (subst Accepted e h.up_accepted).0))
  Step-IsStuffed f g many (handler_returns e c p n') h = absurd (ground (arith, c, h.writing))
  Step-IsStuffed f g many (handler_writes res p room) h = record {
    writing = h.writing;
    unread = h.unread;
    unfinished = h.unfinished;
    running = h.running;
    kept = omega (arith, h.kept, ap count p, length-append f.down (res ∷ []));
    up_bound = h.up_bound;
    down_bound = omega (arith, room, length-append f.down (res ∷ []));
    todo_accepted = h.todo_accepted;
    up_accepted = h.up_accepted;
  }

module _ {engine : RegexEngine} {W : Type 0} (policy : Policy engine) (runner : CmdRunner W)
    (up_room down_room : ℕ) where
  Run-IsStuffed :
      (s : State W) (reqs : List RemCmdMsg) (steps : ℕ) (f : Flow W)
      → Accepted policy runner up_room down_room (length reqs) reqs
      → up_room + down_room + 2 ≤ length reqs
      → Run policy runner up_room down_room s reqs steps f
      → IsStuffed policy runner up_room down_room (length reqs) f
  Run-IsStuffed s reqs steps f fits many opens = record {
    writing = refl;
    unread = refl;
    unfinished = refl;
    running = refl;
    kept = omega arith;
    up_bound = omega arith;
    down_bound = omega arith;
    todo_accepted = fits;
    up_accepted = tt;
  }
  Run-IsStuffed s reqs steps f fits many (goes_on {f = f'} run step) =
      Step-IsStuffed policy runner up_room down_room (length reqs) f' f many step
        (Run-IsStuffed s reqs _ f' fits many run)

  List-unsent : (f : Flow W) → 1 ≤ length f.todo → f.todo ≢ []
  List-unsent f h e = omega (arith, h, ap length e)

  Run_unsent :
      (s : State W) (reqs : List RemCmdMsg) (steps : ℕ) (f : Flow W)
      → All (λ req. accepts policy req ≡ true) reqs
      → up_room + down_room + 2 ≤ length reqs
      → Run policy runner up_room down_room s reqs steps f
      → f.todo ≢ []
  Run_unsent s reqs steps f fits many run =
      let stuffed = Run-IsStuffed s reqs steps f fits many run in
      List-unsent f (
        omega (arith, many, stuffed.kept, stuffed.up_bound, stuffed.down_bound, count_le f.pending))

  Run_unfinished :
      (s : State W) (reqs : List RemCmdMsg) (steps : ℕ) (f : Flow W)
      → All (λ req. accepts policy req ≡ true) reqs
      → up_room + down_room + 2 ≤ length reqs
      → Run policy runner up_room down_room s reqs steps f
      → (f.received ≡ []) × (f.finished ≡ none)
  Run_unfinished s reqs steps f fits many run =
      let stuffed = Run-IsStuffed s reqs steps f fits many run in
      (stuffed.unread, stuffed.unfinished)

  returned-deadline_exceeded :
      (st : Status) → st.code ≡ deadline_exceeded → returned (some st) ≡ some (pos 1)
  unfolding returned
  returned-deadline_exceeded st e = rw e refl

  -- With two requests more than both buffers hold, all of which the server accepts, whatever the order
  -- of the steps: some request is never sent. Until the deadline the client has read no response and
  -- has not finished, and once the deadline has come, `doRemCmdStrm` returns 1.
  pub Call_overdue :
      (s : State W) (reqs : List RemCmdMsg) (f : Flow W) (expired : Bool)
      → All (λ req. accepts policy req ≡ true) reqs
      → up_room + down_room + 2 ≤ length reqs
      → Call policy runner up_room down_room s reqs f expired
      → (f.todo ≢ [])
        × (((expired ≡ false) × (f.received ≡ []) × (f.finished ≡ none))
            ⊎ ((expired ≡ true) × (returned f.finished ≡ some (pos 1))))
  Call_overdue s reqs f expired fits many (in_time run) =
      let (unread, unfinished) = Run_unfinished s reqs _ f fits many run in
      (Run_unsent s reqs _ f fits many run, inl (refl, unread, unfinished))
  Call_overdue s reqs f expired fits many (expires {f = f'} st arrived lost (in_time run) n' e at) =
      (Run_unsent s reqs _ f' fits many run, inr (refl, returned-deadline_exceeded st at))
