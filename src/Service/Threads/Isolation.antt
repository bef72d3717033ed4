-- ===== src/Service/Threads/Isolation.antt =====
-- What one call of src/server/RemSvcServiceImpl.cc does is not changed by the calls beside it.
use mathlib.Core.Path.{subst}
use rem_svc.Base.{
  ℕ, ◌≤◌, List, [], ◌∷◌, ◌++◌, map, append-nil, length, ◌≡◌, refl, sym, ap, ◌∙◌, arith,
}
use rem_svc.Base.Int.{pos}
use rem_svc.Proto.{RemCmdMsg, RemResMsg, Status}
use rem_svc.Policy.{RegexEngine, Policy}
use rem_svc.Service.{Outcome, CmdRunner, count_one, process_stream}
use rem_svc.Service.Execute.{run_one}
use rem_svc.Service.Stream.{accepted, run_all, process_stream-run_all}
use rem_svc.Service.Threads.{Pc, returned, Handler, response, Service, Reachable}
use rem_svc.Service.Threads.Track.{requests, responses, rest_of, unwritten, Track, on_track}

module _ {engine : RegexEngine} (policy : Policy engine) where
  -- In every state that the service can reach, whatever other calls do meanwhile: the commands that a
  -- call has run so far are, in order and each once, the first of those in front of its first message
  -- that is refused, and what it has written are their responses but for the last, which may be due.
  pub ran-accepted :
      {s : Service}
      → Reachable policy s
      → (front : List Handler) (h : Handler) (back : List Handler) → s.handlers ≡ front ++ h ∷ back
      → (after : List RemCmdMsg) × (due : List RemResMsg) × (accepted policy h.messages
          ≡ requests h.ran ++ after)
        × (h.written ++ due ≡ responses h.ran)
        × (length due ≤ 1)
  ran-accepted r front h back e =
      let t = on_track policy r front h back e in
      (rest_of policy h.pc h.todo, unwritten policy h.pc, t.runs, t.answers, at_most_one h.pc)
    where
      at_most_one : (pc : Pc) → length (unwritten policy pc) ≤ 1
      at_most_one pc = ground arith

-- The runner that answers with the outcomes of a list, one after the other.
abbrev pub replay : CmdRunner (List Outcome)
replay [] cmd cmdtyp cmdusr = ([], record { rc = pos 0; out = []; err = [] })
replay (o ∷ os) cmd cmdtyp cmdusr = (os, o)

abbrev pub outcomes : List (RemCmdMsg × Outcome) → List Outcome
outcomes = map (λ (p : RemCmdMsg × Outcome). p.1)

run_all-replay :
    (n : ℕ) (ran : List (RemCmdMsg × Outcome))
    → let r =
        run_all replay (record { commands_executed = n; world = outcomes ran }) (requests ran) in
      (r.0.world ≡ []) × (r.1 ≡ responses ran)
unfolding run_all run_one
run_all-replay n [] = (refl, refl)
run_all-replay n ((req, o) ∷ ran) =
    let ih = run_all-replay (count_one n) ran in (ih.0, ap (◌∷◌ (response (req, o))) ih.1)

module _ {engine : RegexEngine} (policy : Policy engine) where
  -- A call that has returned, whatever other calls did meanwhile, ended as `processStream` alone ends on
  -- its messages with a runner that gives the same outcomes: the same status, the same responses, and
  -- all the outcomes used.
  pub returned-process_stream :
      {s : Service}
      → Reachable policy s
      → (front : List Handler) (h : Handler) (back : List Handler) (st : Status) (n : ℕ)
      → s.handlers ≡ front ++ h ∷ back
      → h.pc ≡ returned st
      → let alone =
          process_stream policy replay
            (record { commands_executed = n; world = outcomes h.ran })
            h.messages
            [] in
        (alone.0.world ≡ []) × (alone.1 ≡ st) × (alone.2 ≡ h.written)
  returned-process_stream r front h back st n e done =
      let t =
        subst (λ (pc : Pc). Track policy h.messages h.ran pc h.todo h.written) done
          (on_track policy r front h back e) in
      let ran = run_all-replay n h.ran in
      let all : accepted policy h.messages ≡ requests h.ran = t.runs ∙ append-nil _ in
      rw (process_stream-run_all policy replay _ h.messages [], all)
        (ran.0, t.ends, ran.1 ∙ sym t.answers ∙ append-nil _)
