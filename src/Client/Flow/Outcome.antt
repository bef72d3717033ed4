-- ===== src/Client/Flow/Outcome.antt =====
-- What a stream between src/client/RemSvcClient.cc and src/server/RemSvcServiceImpl.cc comes to, step by
-- step, against the loop of the handler alone.
use mathlib.Core.Bool.{false≢true}
use rem_svc.Base.{
  ℕ, List, [], ◌∷◌, ◌++◌, append_assoc, append-nil, Option, none, some, true, ◌≡◌, ◌∙◌, sym, ap,
  refl,
}
use rem_svc.Proto.{RemCmdMsg, RemResMsg, Status}
use rem_svc.Policy.{RegexEngine, Policy}
use rem_svc.Service.{State, CmdRunner, process_stream}
use rem_svc.Service.Execute.{run_one}
use rem_svc.Service.Stream.{process_stream_step}
use rem_svc.Client.Flow.{
  Flow, Step, writes, write_fails, writes_done, reads, finishes, handler_runs, handler_refuses,
  handler_returns, handler_writes, Run, opens, goes_on,
}

abbrev the_pending : Option RemResMsg → List RemResMsg
the_pending none = []
the_pending (some res) = res ∷ []

-- The responses so far, wherever they are.
abbrev responses : {W : Type 0} → Flow W → List RemResMsg
responses f = f.received ++ (f.down ++ the_pending f.pending)

module _ {engine : RegexEngine} {W : Type 0} (policy : Policy engine) (runner : CmdRunner W)
    (up_room down_room : ℕ) where
  -- What the handler comes to from here, with the messages that it has not read.
  abbrev comes_to :
      Option Status → State W → List RemCmdMsg → List RemResMsg → State W × Status × List RemResMsg
  comes_to none s reqs written = process_stream policy runner s reqs written
  comes_to (some st) s reqs written = (s, st, written)

  abbrev heads_for : Flow W → State W × Status × List RemResMsg
  heads_for f = comes_to f.ended f.service (f.up ++ f.todo) (responses f)

  -- What holds along a run that heads for `goal`.
  record IsHeading (goal : State W × Status × List RemResMsg) (f : Flow W) : Type 0 where
    heading : heads_for f ≡ goal
    written_all : f.closed ≡ true → f.todo ≡ []
    at_rest : (st : Status) → f.ended ≡ some st → f.pending ≡ none
    nothing_left :
        (st : Status)
        → f.finished ≡ some st
        → (f.ended ≡ some st) × (f.down ≡ []) × (f.closed ≡ true)

  clash : {A : Type 0} {o : Option A} {a : A} → o ≡ none → o ≡ some a → ⊥
  clash e e' = cc

  no_message : {A : Type 0} {xs ys : List A} {x : A} → xs ≡ [] → xs ≡ x ∷ ys → ⊥
  no_message e e' = cc

  Step-heads_for :
      (goal : State W × Status × List RemResMsg) (f g : Flow W)
      → Step policy runner up_room down_room f g
      → IsHeading goal f
      → heads_for g ≡ heads_for f
  unfolding process_stream
  Step-heads_for goal f g (writes req rest e room) h =
      rw (e, append_assoc f.up (req ∷ []) rest) refl
  Step-heads_for goal f g (write_fails st e req rest t) h = rw e refl
  Step-heads_for goal f g (writes_done e c) h = refl
  Step-heads_for goal f g (reads res rest c e) h =
      rw (e, append_assoc f.received (res ∷ []) (rest ++ the_pending f.pending)) refl
  Step-heads_for goal f g (finishes st c d e n) h = refl
  Step-heads_for goal f g (handler_runs req rest e p n a) h =
      let written = f.received ++ (f.down ++ []) in
      rw
        (
          e,
          p,
          n,
          process_stream_step policy runner f.service req (rest ++ f.todo) written,
          a,
          append-nil f.down,
        )
        (ap (process_stream policy runner (run_one runner f.service req).0 (rest ++ f.todo))
          (sym (append_assoc f.received f.down ((run_one runner f.service req).1 ∷ []))))
  Step-heads_for goal f g (handler_refuses req rest e p n a) h =
      let written = f.received ++ (f.down ++ []) in
      rw (e, p, n, process_stream_step policy runner f.service req (rest ++ f.todo) written, a) refl
  Step-heads_for goal f g (handler_returns e c p n) h = rw (e, h.written_all c, p, n) refl
  Step-heads_for goal f g (handler_writes res p room) h =
      rw (p, append-nil (f.down ++ res ∷ [])) refl

  Step-written_all :
      (goal : State W × Status × List RemResMsg) (f g : Flow W)
      → Step policy runner up_room down_room f g
      → IsHeading goal f
      → g.closed ≡ true
      → g.todo ≡ []
  Step-written_all goal f g (writes req rest e room) h c = absurd (no_message (h.written_all c) e)
  Step-written_all goal f g (write_fails st e req rest t) h c = refl
  Step-written_all goal f g (writes_done e c) h c' = e
  Step-written_all goal f g (reads res rest c e) h c' = h.written_all c'
  Step-written_all goal f g (finishes st c d e n) h c' = h.written_all c'
  Step-written_all goal f g (handler_runs req rest e p n a) h c = h.written_all c
  Step-written_all goal f g (handler_refuses req rest e p n a) h c = h.written_all c
  Step-written_all goal f g (handler_returns e c p n) h c' = h.written_all c'
  Step-written_all goal f g (handler_writes res p room) h c = h.written_all c

  Step-at_rest :
      (goal : State W × Status × List RemResMsg) (f g : Flow W)
      → Step policy runner up_room down_room f g
      → IsHeading goal f
      → (st : Status) → g.ended ≡ some st
      → g.pending ≡ none
  Step-at_rest goal f g (writes req rest e room) h st e' = h.at_rest st e'
  Step-at_rest goal f g (write_fails st e req rest t) h st' e' = h.at_rest st' e'
  Step-at_rest goal f g (writes_done e c) h st e' = h.at_rest st e'
  Step-at_rest goal f g (reads res rest c e) h st e' = h.at_rest st e'
  Step-at_rest goal f g (finishes st c d e n) h st' e' = h.at_rest st' e'
  Step-at_rest goal f g (handler_runs req rest e p n a) h st e' = absurd (clash n e')
  Step-at_rest goal f g (handler_refuses req rest e p n a) h st e' = p
  Step-at_rest goal f g (handler_returns e c p n) h st e' = p
  Step-at_rest goal f g (handler_writes res p room) h st e' = refl

  abbrev Rests : Flow W → Type 0
  Rests f =
      (st : Status) → f.finished ≡ some st → (f.ended ≡ some st) × (f.down ≡ []) × (f.closed ≡ true)

  Step-Rests :
      (goal : State W × Status × List RemResMsg) (f g : Flow W)
      → Step policy runner up_room down_room f g
      → IsHeading goal f
      → Rests g
  Step-Rests goal f g (writes req rest e room) h st e' =
      absurd (no_message (h.written_all (h.nothing_left st e').2) e)
  Step-Rests goal f g (write_fails st e req rest t) h st' e' = h.nothing_left st' e'
  Step-Rests goal f g (writes_done e c) h st e' =
      let (ended, emptied, shut) = h.nothing_left st e' in (ended, emptied, refl)
  Step-Rests goal f g (reads res rest c e) h st e' = absurd (no_message (h.nothing_left st e').1 e)
  Step-Rests goal f g (finishes st c d e n) h st' e' = (e ∙ e', d, c)
  Step-Rests goal f g (handler_runs req rest e p n a) h st e' =
      absurd (clash n (h.nothing_left st e').0)
  Step-Rests goal f g (handler_refuses req rest e p n a) h st e' =
      absurd (clash n (h.nothing_left st e').0)
  Step-Rests goal f g (handler_returns e c p n) h st e' = absurd (clash n (h.nothing_left st e').0)
  Step-Rests goal f g (handler_writes res p room) h st e' =
      absurd (clash (h.at_rest st (h.nothing_left st e').0) p)

  Run-IsHeading :
      (s : State W) (reqs : List RemCmdMsg) (steps : ℕ) (f : Flow W)
      → Run policy runner up_room down_room s reqs steps f
      → IsHeading (process_stream policy runner s reqs []) f
  Run-IsHeading s reqs steps f opens = record {
    heading = refl;
    written_all = λ c. absurd (false≢true c);
    at_rest = λ st e. refl;
    nothing_left = λ st e. absurd (clash refl e);
  }
  Run-IsHeading s reqs steps f (goes_on {f = f'} run step) =
      let goal = process_stream policy runner s reqs [] in
      let before = Run-IsHeading s reqs _ f' run in
      record {
        heading = Step-heads_for goal f' f step before ∙ before.heading;
        written_all = Step-written_all goal f' f step before;
        at_rest = Step-at_rest goal f' f step before;
        nothing_left = Step-Rests goal f' f step before;
      }

  -- However the steps of the client, of the handler and of the stream between them follow one another: a
  -- run that has finished left the service as `processStream` leaves it on the list of all requests,
  -- with its status, and the client has read exactly its responses, in their order.
  pub Run-process_stream :
      (s : State W) (reqs : List RemCmdMsg) (steps : ℕ) (f : Flow W) (st : Status)
      → Run policy runner up_room down_room s reqs steps f
      → f.finished ≡ some st
      → (f.service, st, f.received) ≡ process_stream policy runner s reqs []
  Run-process_stream s reqs steps f st run done =
      let inv = Run-IsHeading s reqs steps f run in
      let (ended, emptied, shut) = inv.nothing_left st done in
      sym (rw (ended, emptied, inv.at_rest st ended, append-nil f.received) refl) ∙ inv.heading
