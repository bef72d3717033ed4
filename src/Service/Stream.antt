-- ===== src/Service/Stream.antt =====
-- `processStream` of src/server/RemSvcServiceImpl.cc: what it runs, what it writes, and that it
-- treats each message as `RemCmd` does.
use rem_svc.Base.{
  ◌+◌, ◌%◌, ◌^◌, ◌<◌, List, [], ◌∷◌, ◌++◌, map, append-nil, append_assoc, length, if◌then◌else◌,
  ◌≡◌, refl, sym, ap, ◌∙◌, arith, Bool-cases, inl, inr,
}
use rem_svc.Proto.{RemCmdMsg, RemResMsg, Status, status_ok, is_ok, empty_res}
use rem_svc.Policy.{RegexEngine, Policy}
use rem_svc.Service.{State, CmdRunner, rem_cmd, process_stream}
use rem_svc.Service.Execute.{accepts, refusal, run_one, rem_cmd-run_one, is_ok-refusal}

module _ {engine : RegexEngine} (policy : Policy engine) where
  -- The messages in front of the first that is not accepted.
  unfoldable pub accepted : List RemCmdMsg → List RemCmdMsg
  accepted [] = []
  accepted (req ∷ reqs) = if accepts policy req then req ∷ accepted reqs else []

  -- The status that the first message not accepted gives.
  unfoldable pub ending : List RemCmdMsg → Status
  ending [] = status_ok
  ending (req ∷ reqs) = if accepts policy req then ending reqs else refusal policy req

module _ {W : Type 0} (runner : CmdRunner W) where
  -- All the messages run in order, with the responses.
  unfoldable pub run_all : State W → List RemCmdMsg → State W × List RemResMsg
  run_all s [] = (s, [])
  run_all s (req ∷ reqs) =
      let (s', res) = run_one runner s req in let (s'', more) = run_all s' reqs in (s'', res ∷ more)

  pub length-run_all :
      (s : State W) (reqs : List RemCmdMsg) → length (run_all s reqs).1 ≡ length reqs
  unfolding run_all
  length-run_all s [] = refl
  length-run_all s (req ∷ reqs) = omega (arith, length-run_all (run_one runner s req).0 reqs)

module _ {engine : RegexEngine} {W : Type 0} (policy : Policy engine) (runner : CmdRunner W) where
  -- A result of the stream with its responses left open.
  abbrev ends_with : State W → Status → List RemResMsg → State W × Status × List RemResMsg
  ends_with s st written = (s, st, written)

  pub process_stream_step :
      (s : State W) (req : RemCmdMsg) (rest : List RemCmdMsg) (written : List RemResMsg)
      → process_stream policy runner s (req ∷ rest) written ≡ (
          if accepts policy req
          then (let (s', res) = run_one runner s req in
              process_stream policy runner s' rest (written ++ res ∷ []))
          else (s, refusal policy req, written))
  unfolding process_stream accepts run_one refusal
  process_stream_step s req rest written = ground arith

  -- The stream runs exactly the messages in front of the first that is not accepted, in order and
  -- each once, appends their responses in that order to what was written, and ends with the status
  -- of that first message, or OK if there is none.
  pub process_stream-run_all :
      (s : State W) (reqs : List RemCmdMsg) (written : List RemResMsg)
      → process_stream policy runner s reqs written ≡ (
          let (s', more) = run_all runner s (accepted policy reqs) in
          (s', ending policy reqs, written ++ more))
  unfolding run_all accepted ending
  process_stream-run_all s [] written =
      unfold process_stream in ap (ends_with s status_ok) (sym (append-nil written))
  process_stream-run_all s (req ∷ rest) written = elim (Bool-cases (accepts policy req)) [
    | inl fits ↦
        process_stream_step s req rest written
        ∙ rw (fits, accepted, ending)
            (let (s', res) = run_one runner s req in
              process_stream-run_all s' rest (written ++ res ∷ [])
              ∙ ap (ends_with (run_all runner s' (accepted policy rest)).0 (ending policy rest))
                  (append_assoc written (res ∷ []) _))
    | inr fails ↦
        process_stream_step s req rest written
        ∙ rw (fails, accepted, ending)
            (ap (ends_with s (refusal policy req)) (sym (append-nil written)))
  ]

  -- One unary call for each message, until the first that does not return OK.
  pub session : State W → List RemCmdMsg → State W × Status × List RemResMsg
  session s [] = (s, status_ok, [])
  session s (req ∷ rest) =
      let (s', st, res) = rem_cmd policy runner s req empty_res in
      let (s'', st', more) = session s' rest in
      if is_ok st then (s'', st', res ∷ more) else (s', st, [])

  session-run_all :
      (s : State W) (reqs : List RemCmdMsg)
      → session s reqs ≡ (
          let (s', more) = run_all runner s (accepted policy reqs) in
          (s', ending policy reqs, more))
  unfolding session run_all accepted ending
  session-run_all s [] = refl
  session-run_all s (req ∷ rest) = elim (Bool-cases (accepts policy req)) [
    | inl fits ↦
        rw (rem_cmd-run_one policy runner s req empty_res, fits, accepted, ending, session)
          (let (s', res) = run_one runner s req in
            ap (λ (t : State W × Status × List RemResMsg). (t.0, t.1, res ∷ t.2))
              (session-run_all s' rest))
    | inr fails ↦
        rw (rem_cmd-run_one policy runner s req empty_res, fails, accepted, ending, session)
          (rw (is_ok-refusal policy req))
  ]

  -- A stream on which nothing was written yet does what one unary call for each message does, up to
  -- and including the first call that is refused: same state, same status, same responses.
  process_stream-session :
      (s : State W) (reqs : List RemCmdMsg)
      → process_stream policy runner s reqs [] ≡ session s reqs
  process_stream-session s reqs = process_stream-run_all s reqs [] ∙ sym (session-run_all s reqs)

  run_all-counter :
      (s : State W) (reqs : List RemCmdMsg)
      → s.commands_executed < 2 ^ 64
      → (run_all runner s reqs).0.commands_executed ≡ (s.commands_executed + length reqs) % 2 ^ 64
  unfolding run_all run_one
  run_all-counter s [] h = omega arith
  run_all-counter s (req ∷ reqs) h =
      omega (arith, run_all-counter (run_one runner s req).0 reqs (unfold run_one in omega arith))

  run_all-labels :
      (s : State W) (reqs : List RemCmdMsg)
      → (map (λ r. r.tid) (run_all runner s reqs).1 ≡ map (λ q. q.tid) reqs)
        × (map (λ r. r.hsh) (run_all runner s reqs).1 ≡ map (λ q. q.hsh) reqs)
  unfolding run_all run_one
  run_all-labels s [] = (refl, refl)
  run_all-labels s (req ∷ reqs) =
      let rest = run_all-labels (run_one runner s req).0 reqs in
      (ap (◌∷◌ req.tid) rest.0, ap (◌∷◌ req.hsh) rest.1)

  -- On a fresh stream the responses carry the transaction ids and the hashes of the messages in
  -- front of the first that is refused, in their order, and the 64-bit counter grows, wrapping, by
  -- the number of those messages.
  process_stream_labels :
      (s : State W) (reqs : List RemCmdMsg)
      → s.commands_executed < 2 ^ 64
      → let (s', st, written) = process_stream policy runner s reqs [] in
        let run = accepted policy reqs in
        (map (λ r. r.tid) written ≡ map (λ q. q.tid) run)
        × (map (λ r. r.hsh) written ≡ map (λ q. q.hsh) run)
        × (s'.commands_executed ≡ (s.commands_executed + length run) % 2 ^ 64)
  process_stream_labels s reqs h = rw (process_stream-run_all s reqs []) (
      let labels = run_all-labels s (accepted policy reqs) in
      (labels.0, labels.1, run_all-counter s (accepted policy reqs) h))
