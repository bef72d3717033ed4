-- ===== src/Client/Flow/Progress.antt =====
-- When a stream between src/client/RemSvcClient.cc and src/server/RemSvcServiceImpl.cc comes to its end.
use rem_svc.Base.{
  ℕ, ◌+◌, ◌*◌, ◌≤◌, ◌<◌, List, [], ◌∷◌, Option, none, some, Bool, true, false, length,
  length-append, ◌≡◌, ◌≢◌, ◌⊎◌, inl, inr, refl, ap, arith, Bool-cases, Option-cases, List-cases,
  ltb, ltb→lt, ltb→le,
}
use rem_svc.Proto.{RemCmdMsg}
use rem_svc.Policy.{RegexEngine, Policy}
use rem_svc.Service.{State, CmdRunner}
use rem_svc.Service.Execute.{accepts}
use rem_svc.Client.Flow.{
  Flow, Step, writes, write_fails, writes_done, reads, finishes, handler_runs, handler_refuses,
  handler_returns, handler_writes, Run, opens, goes_on,
}

abbrev pub count {ℓ} : {A : Type ℓ} → Option A → ℕ
count none = 0
count (some a) = 1

abbrev lacks {ℓ} : {A : Type ℓ} → Option A → ℕ
lacks none = 1
lacks (some a) = 0

abbrev open_end : Bool → ℕ
open_end true = 0
open_end false = 1

-- The messages that the client has not read the answer of.
abbrev pub waiting : {W : Type 0} → Flow W → ℕ
waiting f = length f.todo + length f.up + count f.pending + length f.down

-- The steps that are left at most.
abbrev left : {W : Type 0} → Flow W → ℕ
left f =
    (4 * length f.todo + 3 * length f.up + 2 * count f.pending + length f.down)
    + (open_end f.closed + lacks f.ended + lacks f.finished)

module _ {engine : RegexEngine} {W : Type 0} (policy : Policy engine) (runner : CmdRunner W)
    (up_room down_room : ℕ) where
  Step-left : (f g : Flow W) → Step policy runner up_room down_room f g → left g < left f
  Step-left f g (writes req rest e room) = rw e (omega (arith, length-append f.up (req ∷ [])))
  Step-left f g (write_fails st e req rest t) = rw t (omega arith)
  Step-left f g (writes_done e c) = rw c (omega arith)
  Step-left f g (reads res rest c e) = rw e (omega arith)
  Step-left f g (finishes st c d e n) = rw n (omega arith)
  Step-left f g (handler_runs req rest e p n a) = rw (e, p) (omega arith)
  Step-left f g (handler_refuses req rest e p n a) = rw (e, n) (omega arith)
  Step-left f g (handler_returns e c p n) = rw n (omega arith)
  Step-left f g (handler_writes res p room) = rw p (omega (arith, length-append f.down (res ∷ [])))

  Step-waiting : (f g : Flow W) → Step policy runner up_room down_room f g → waiting g ≤ waiting f
  Step-waiting f g (writes req rest e room) = rw e (omega (arith, length-append f.up (req ∷ [])))
  Step-waiting f g (write_fails st e req rest t) = rw t (omega arith)
  Step-waiting f g (writes_done e c) = omega arith
  Step-waiting f g (reads res rest c e) = rw e (omega arith)
  Step-waiting f g (finishes st c d e n) = omega arith
  Step-waiting f g (handler_runs req rest e p n a) = rw (e, p) (omega arith)
  Step-waiting f g (handler_refuses req rest e p n a) = rw e (omega arith)
  Step-waiting f g (handler_returns e c p n) = omega arith
  Step-waiting f g (handler_writes res p room) =
      rw p (omega (arith, length-append f.down (res ∷ [])))

  -- Another step can be made.
  abbrev pub CanStep : Flow W → Type 0
  CanStep f = (g : Flow W) × Step policy runner up_room down_room f g

  -- The handler has a message and nothing to write: it takes the message.
  handler_takes :
      (f : Flow W) (req : RemCmdMsg) (rest : List RemCmdMsg)
      → f.up ≡ req ∷ rest
      → f.pending ≡ none
      → f.ended ≡ none
      → CanStep f
  handler_takes f req rest e p n = elim (Bool-cases (accepts policy req)) [
    | inl a ↦ (_, handler_runs req rest e p n a)
    | inr a ↦ (_, handler_refuses req rest e p n a)
  ]

  -- The handler is not done: it goes on unless it waits for room, or for a message.
  handler_goes_on :
      (f : Flow W)
      → f.ended ≡ none
      → CanStep f
        ⊎ ((count f.pending ≡ 1) × (down_room ≤ length f.down))
        ⊎ ((f.pending ≡ none) × (f.up ≡ []))
  handler_goes_on f n = elim (Option-cases f.pending) [
    | inl p ↦ elim (List-cases f.up) [
      | inl e ↦ inr (inr (p, e))
      | inr (req, rest, e) ↦ inl (handler_takes f req rest e p n)
    ]
    | inr (res, p) ↦ elim (Bool-cases (ltb (length f.down) down_room)) [
      | inl room ↦ inl (_, handler_writes res p (ltb→lt (length f.down) down_room room))
      | inr full ↦ inr (inl (rw p refl, ltb→le (length f.down) down_room full))
    ]
  ]

  -- A stream that cannot go on has finished, or holds so many messages that both ends wait for room.
  stuck :
      (f : Flow W)
      → 0 < up_room
      → 0 < down_room
      → waiting f < up_room + down_room + 2
      → CanStep f ⊎ (f.finished ≢ none)
  stuck f up_positive down_positive few = elim (Bool-cases f.closed) [
    | inr c ↦ elim (List-cases f.todo) [
      | inl t ↦ inl (_, writes_done t c)
      | inr (req, rest, t) ↦ elim (Bool-cases (ltb (length f.up) up_room)) [
        | inl room ↦ inl (_, writes req rest t (ltb→lt (length f.up) up_room room))
        | inr full ↦ elim (Option-cases f.ended) [
          | inr (st, e) ↦ inl (_, write_fails st e req rest t)
          | inl n ↦ elim (handler_goes_on f n) [
            | inl more ↦ inl more
            | inr (inl (one, filled)) ↦
                absurd
                  (omega (arith, one, filled, few, ltb→le (length f.up) up_room full, ap length t))
            | inr (inr (p, e)) ↦
                absurd (omega (arith, ltb→le (length f.up) up_room full, ap length e))
          ]
        ]
      ]
    ]
    | inl c ↦ elim (List-cases f.down) [
      | inr (res, rest, d) ↦ inl (_, reads res rest c d)
      | inl d ↦ elim (Option-cases f.ended) [
        | inr (st, e) ↦ elim (Option-cases f.finished) [
          | inl n ↦ inl (_, finishes st c d e n)
          | inr (st', e') ↦ inr (λ h. cc)
        ]
        | inl n ↦ elim (handler_goes_on f n) [
          | inl more ↦ inl more
          | inr (inl (one, filled)) ↦ absurd (omega (arith, filled, ap length d))
          | inr (inr (p, e)) ↦ inl (_, handler_returns e c p n)
        ]
      ]
    ]
  ]

  Run-left :
      (s : State W) (reqs : List RemCmdMsg) (steps : ℕ) (f : Flow W)
      → Run policy runner up_room down_room s reqs steps f
      → (steps + left f ≤ 4 * length reqs + 3) × (waiting f ≤ length reqs)
  Run-left s reqs steps f opens = (omega arith, omega arith)
  Run-left s reqs steps f (goes_on {f = f'} run step) =
      let before = Run-left s reqs _ f' run in
      (
        omega (arith, before.0, Step-left f' f step),
        omega (arith, before.1, Step-waiting f' f step),
      )

  -- Where each buffer holds a message, and the requests are at most one more than both buffers hold: no
  -- run of a stream takes more than 4 n + 3 steps for n requests, and one that cannot go on has
  -- finished, whatever the order of the steps of the two ends.
  pub Run-CanStep :
      (s : State W) (reqs : List RemCmdMsg) (steps : ℕ) (f : Flow W)
      → 0 < up_room
      → 0 < down_room
      → length reqs < up_room + down_room + 2
      → Run policy runner up_room down_room s reqs steps f
      → (steps ≤ 4 * length reqs + 3) × (CanStep f ⊎ (f.finished ≢ none))
  Run-CanStep s reqs steps f up_positive down_positive few run =
      let bound = Run-left s reqs steps f run in
      (omega (arith, bound.0), stuck f up_positive down_positive (omega (arith, bound.1, few)))
