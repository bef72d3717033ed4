-- ===== src/Service/Threads/Track.antt =====
-- The invariant of a handler of src/server/RemSvcServiceImpl.cc that shares the service with others:
-- how what it ran, will run and wrote add up at each place in its loop.
use mathlib.Core.List.{map-append}
use mathlib.Core.Path.{subst}
use rem_svc.Base.{
  ℕ, List, [], ◌∷◌, ◌++◌, map, append-nil, append_assoc, All, All-append, Bool-cases, inl, inr, ◌≡◌,
  refl, sym, ap, ◌∙◌, arith, if◌then◌else◌,
}
use rem_svc.Proto.{RemCmdMsg, RemResMsg, Status}
use rem_svc.Policy.{RegexEngine, Policy}
use rem_svc.Service.{Outcome}
use rem_svc.Service.Execute.{accepts, refusal}
use rem_svc.Service.Stream.{accepted, ending}
use rem_svc.Service.Threads.{
  Pc, reading, checking, executing, executed, counted, returned, Handler, begin_stream, begin_unary,
  response, check, read_next, advance_from, advance, Service, Step, streams, calls, moves,
  Reachable, start, later,
}

All-split {ℓ κ} :
    {A : Type ℓ} (P : A → Type κ) (front : List A) (a : A) (back : List A)
    → All P (front ++ a ∷ back)
    → All P front × P a × All P back
All-split P [] a back h = (tt, h.0, h.1)
All-split P (x ∷ front) a back h =
    let parts = All-split P front a back h.1 in ((h.0, parts.0), parts.1, parts.2)

abbrev pub requests : List (RemCmdMsg × Outcome) → List RemCmdMsg
requests = map (λ (p : RemCmdMsg × Outcome). p.0)

abbrev pub responses : List (RemCmdMsg × Outcome) → List RemResMsg
responses = map response

module _ {engine : RegexEngine} (policy : Policy engine) where
  check_lem :
      (req : RemCmdMsg)
      → check policy req
        ≡ (if accepts policy req then executing req else returned (refusal policy req))
  unfolding check accepts refusal
  check_lem req = ground arith

  -- What a handler has still to run and how it will end, at each place in its loop.
  abbrev pub rest_of : Pc → List RemCmdMsg → List RemCmdMsg
  rest_of reading todo = accepted policy todo
  rest_of (checking req) todo = accepted policy (req ∷ todo)
  rest_of (executing req) todo = req ∷ accepted policy todo
  rest_of (executed req o) todo = accepted policy todo
  rest_of (counted req o) todo = accepted policy todo
  rest_of (returned st) todo = []

  abbrev pub end_of : Pc → List RemCmdMsg → Status
  end_of reading todo = ending policy todo
  end_of (checking req) todo = ending policy (req ∷ todo)
  end_of (executing req) todo = ending policy todo
  end_of (executed req o) todo = ending policy todo
  end_of (counted req o) todo = ending policy todo
  end_of (returned st) todo = st

  -- The responses that are due and not written.
  abbrev pub unwritten : Pc → List RemResMsg
  unwritten reading = []
  unwritten (checking req) = []
  unwritten (executing req) = []
  unwritten (executed req o) = response (req, o) ∷ []
  unwritten (counted req o) = response (req, o) ∷ []
  unwritten (returned st) = []

  pub record Track (messages : List RemCmdMsg) (ran : List (RemCmdMsg × Outcome)) (pc : Pc)
      (todo : List RemCmdMsg) (written : List RemResMsg) : Type 0 where
    pub runs : accepted policy messages ≡ requests ran ++ rest_of pc todo
    pub ends : ending policy messages ≡ end_of pc todo
    pub answers : written ++ unwritten pc ≡ responses ran

  abbrev pub OnTrack : Handler → Type 0
  OnTrack h = Track h.messages h.ran h.pc h.todo h.written

  begin_stream-OnTrack : (reqs : List RemCmdMsg) → OnTrack (begin_stream reqs)
  begin_stream-OnTrack reqs = record { runs = refl; ends = refl; answers = refl }

  begin_unary-OnTrack : (req : RemCmdMsg) → OnTrack (begin_unary req)
  begin_unary-OnTrack req = record { runs = refl; ends = refl; answers = refl }

  read_next-OnTrack :
      (todo : List RemCmdMsg) (h : Handler)
      → Track h.messages h.ran reading todo h.written
      → OnTrack (read_next policy todo h)
  unfolding read_next accepted ending
  read_next-OnTrack [] h t = record { runs = t.runs; ends = t.ends; answers = t.answers }
  read_next-OnTrack (req ∷ rest) h t = record { runs = t.runs; ends = t.ends; answers = t.answers }

  check-OnTrack :
      (req : RemCmdMsg) (h : Handler)
      → Track h.messages h.ran (checking req) h.todo h.written
      → OnTrack (record h { pc = check policy req })
  check-OnTrack req h t = elim (Bool-cases (accepts policy req)) [
    | inl fits ↦
        rw (check_lem req, fits)
          (record {
            runs = t.runs ∙ unfold accepted in rw fits refl;
            ends = t.ends ∙ unfold ending in rw fits refl;
            answers = t.answers;
          })
    | inr fails ↦
        rw (check_lem req, fails)
          (record {
            runs = t.runs ∙ unfold accepted in rw fails refl;
            ends = t.ends ∙ unfold ending in rw fails refl;
            answers = t.answers;
          })
  ]

  advance_from-OnTrack :
      (pc : Pc) (o : Outcome) (n : ℕ) (h : Handler)
      → Track h.messages h.ran pc h.todo h.written
      → OnTrack (advance_from policy pc o n h).1
  unfolding advance_from
  advance_from-OnTrack reading o n h t = read_next-OnTrack h.todo h t
  advance_from-OnTrack (checking req) o n h t = check-OnTrack req h t
  advance_from-OnTrack (executing req) o n h t = record {
    runs = t.runs ∙ simp (map-append, append_assoc);
    ends = t.ends;
    answers =
        ap (λ (l : List RemResMsg). l ++ response (req, o) ∷ []) (sym (append-nil _) ∙ t.answers)
        ∙ sym (map-append response h.ran ((req, o) ∷ []));
  }
  advance_from-OnTrack (executed req o') o n h t = record {
    runs = t.runs;
    ends = t.ends;
    answers = t.answers;
  }
  advance_from-OnTrack (counted req o') o n h t = record {
    runs = t.runs;
    ends = t.ends;
    answers = append-nil _ ∙ t.answers;
  }
  advance_from-OnTrack (returned st) o n h t = record {
    runs = t.runs;
    ends = t.ends;
    answers = t.answers;
  }

  advance-OnTrack :
      (o : Outcome) (n : ℕ) (h : Handler) → OnTrack h → OnTrack (advance policy o n h).1
  unfolding advance
  advance-OnTrack o n h t = advance_from-OnTrack h.pc o n h t

  Step-OnTrack : {s t : Service} → Step policy s t → All OnTrack s.handlers → All OnTrack t.handlers
  Step-OnTrack {s} (streams reqs) ok =
      All-append OnTrack s.handlers (begin_stream reqs ∷ []) ok (begin_stream-OnTrack reqs, tt)
  Step-OnTrack {s} (calls req) ok =
      All-append OnTrack s.handlers (begin_unary req ∷ []) ok (begin_unary-OnTrack req, tt)
  Step-OnTrack {s} (moves front h back o e) ok =
      let parts = All-split OnTrack front h back (subst (All OnTrack) e ok) in
      All-append OnTrack front ((advance policy o s.counter h).1 ∷ back) parts.0
        ((advance-OnTrack o s.counter h parts.1), parts.2)

  pub Reachable-OnTrack : {s : Service} → Reachable policy s → All OnTrack s.handlers
  Reachable-OnTrack start = tt
  Reachable-OnTrack (later r step) = Step-OnTrack step (Reachable-OnTrack r)

  pub on_track :
      {s : Service}
      → Reachable policy s
      → (front : List Handler) (h : Handler) (back : List Handler) → s.handlers ≡ front ++ h ∷ back
      → OnTrack h
  on_track r front h back e =
      (All-split OnTrack front h back (subst (All OnTrack) e (Reachable-OnTrack r))).1
