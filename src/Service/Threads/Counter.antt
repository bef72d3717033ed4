-- ===== src/Service/Threads/Counter.antt =====
-- The counter `m_commandsExecuted` of src/server/RemSvcServiceImpl.cc under concurrent calls.
use rem_svc.Base.{
  ℕ, ◌+◌, ◌%◌, ◌^◌, ◌<◌, List, [], ◌∷◌, ◌++◌, length, length-append, length-map, append-nil, All,
  Bool, true, false, ◌≡◌, refl, ap, ◌∙◌, arith,
}
use rem_svc.Policy.{RegexEngine, Policy}
use rem_svc.Proto.{RemCmdMsg}
use rem_svc.Service.{Outcome}
use rem_svc.Service.Stream.{accepted}
use rem_svc.Service.Threads.Track.{Track, OnTrack, requests, Reachable-OnTrack}
use rem_svc.Service.Threads.{
  Pc, reading, checking, executing, executed, counted, returned, Handler, begin_stream, begin_unary,
  check, read_next, advance_from, advance, Service, Step, streams, calls, moves, Reachable, start,
  later,
}

-- The sum of a weight over all calls.
pub total : (Handler → ℕ) → List Handler → ℕ
total w [] = 0
total w (h ∷ hs) = w h + total w hs

total-append :
    (w : Handler → ℕ) (xs ys : List Handler) → total w (xs ++ ys) ≡ total w xs + total w ys
unfolding total
total-append w [] ys = omega arith
total-append w (x ∷ xs) ys = omega (arith, total-append w xs ys)

-- How often a call has run the runner, and whether it has yet to count the last time.
abbrev pub runs : Handler → ℕ
runs h = length h.ran

abbrev uncounted_at : Pc → ℕ
uncounted_at reading = 0
uncounted_at (checking req) = 0
uncounted_at (executing req) = 0
uncounted_at (executed req o) = 1
uncounted_at (counted req o) = 0
uncounted_at (returned st) = 0

abbrev pub uncounted : Handler → ℕ
uncounted h = uncounted_at h.pc

abbrev pub has_returned : Pc → Bool
has_returned reading = false
has_returned (checking req) = false
has_returned (executing req) = false
has_returned (executed req o) = false
has_returned (counted req o) = false
has_returned (returned st) = true

module _ {engine : RegexEngine} (policy : Policy engine) where
  -- A step keeps the balance of the counter and the mover.
  record Balanced (n : ℕ) (pc : Pc) (ran : ℕ) (after : ℕ × Handler) : Type 0 where
    fits : after.0 < 2 ^ 64
    level :
        (after.0 + uncounted after.1 + ran) % 2 ^ 64 ≡ (n + uncounted_at pc + runs after.1) % 2 ^ 64

  read_next-Balanced :
      (todo : List RemCmdMsg) (n : ℕ) (h : Handler)
      → n < 2 ^ 64
      → Balanced n reading (runs h) (n, read_next policy todo h)
  unfolding read_next
  read_next-Balanced [] n h lt = record { fits = lt; level = omega arith }
  read_next-Balanced (req ∷ rest) n h lt = record { fits = lt; level = omega arith }

  uncounted_at-check : (req : RemCmdMsg) → uncounted_at (check policy req) ≡ 0
  unfolding check
  uncounted_at-check req = ground arith

  advance_from-Balanced :
      (pc : Pc) (o : Outcome) (n : ℕ) (h : Handler)
      → n < 2 ^ 64
      → Balanced n pc (runs h) (advance_from policy pc o n h)
  unfolding advance_from
  advance_from-Balanced reading o n h lt = read_next-Balanced h.todo n h lt
  advance_from-Balanced (checking req) o n h lt = record {
    fits = lt;
    level = omega (arith, uncounted_at-check req);
  }
  advance_from-Balanced (executing req) o n h lt = record {
    fits = lt;
    level = omega (arith, length-append h.ran ((req, o) ∷ []));
  }
  advance_from-Balanced (executed req o') o n h lt = record {
    fits = omega arith;
    level = omega arith;
  }
  advance_from-Balanced (counted req o') o n h lt = record { fits = lt; level = omega arith }
  advance_from-Balanced (returned st) o n h lt = record { fits = lt; level = omega arith }

  advance-Balanced :
      (o : Outcome) (n : ℕ) (h : Handler)
      → n < 2 ^ 64
      → Balanced n h.pc (runs h) (advance policy o n h)
  unfolding advance
  advance-Balanced o n h lt = advance_from-Balanced h.pc o n h lt

  -- The counter is the number of runs but for those that are not counted yet.
  pub record IsExact (s : Service) : Type 0 where
    pub fits : s.counter < 2 ^ 64
    pub level : (s.counter + total uncounted s.handlers) % 2 ^ 64 ≡ total runs s.handlers % 2 ^ 64

  total-insert :
      (w : Handler → ℕ) (front back : List Handler) (h : Handler)
      → total w (front ++ h ∷ back) ≡ total w front + (w h + total w back)
  total-insert w front back h = total-append w front (h ∷ back) ∙ unfold total in refl

  Step-IsExact : {s t : Service} → Step policy s t → IsExact s → IsExact t
  unfolding total
  Step-IsExact {s} (streams reqs) ok = record {
    fits = ok.fits;
    level = omega (
      arith,
      ok.level,
      total-insert runs s.handlers [] (begin_stream reqs),
      total-insert uncounted s.handlers [] (begin_stream reqs),
    );
  }
  Step-IsExact {s} (calls req) ok = record {
    fits = ok.fits;
    level = omega (
      arith,
      ok.level,
      total-insert runs s.handlers [] (begin_unary req),
      total-insert uncounted s.handlers [] (begin_unary req),
    );
  }
  Step-IsExact {s} (moves front h back o e) ok =
      let b = advance-Balanced o s.counter h ok.fits in
      let next = (advance policy o s.counter h).1 in
      record {
        fits = b.fits;
        level = omega (
          arith,
          ok.level,
          b.level,
          ap (total runs) e,
          ap (total uncounted) e,
          total-insert runs front back h,
          total-insert uncounted front back h,
          total-insert runs front back next,
          total-insert uncounted front back next,
        );
      }

  -- In every state that the service can reach, the counter and the calls whose last run is not counted
  -- yet add up to the number of runs of all calls, modulo 2 ^ 64: no increment is lost.
  pub Reachable-IsExact : {s : Service} → Reachable policy s → IsExact s
  unfolding total
  Reachable-IsExact start = record { fits = omega arith; level = refl }
  Reachable-IsExact (later r step) = Step-IsExact step (Reachable-IsExact r)

  -- How many messages of a call are in front of its first that is refused.
  abbrev pub acceptable : Handler → ℕ
  acceptable h = length (accepted policy h.messages)

  runs-acceptable :
      (pc : Pc) (h : Handler)
      → has_returned pc ≡ true
      → Track policy h.messages h.ran pc h.todo h.written
      → (runs h ≡ acceptable h) × (uncounted_at pc ≡ 0)
  runs-acceptable (returned st) h done t =
      let all : accepted policy h.messages ≡ requests h.ran = t.runs ∙ append-nil _ in
      (
        omega (
          arith,
          ap (length {0}) all,
          length-map {0, 0} (λ (p : RemCmdMsg × Outcome). p.0) h.ran,
        ),
        refl,
      )
  runs-acceptable _ h done t = cc

  total-acceptable :
      (hs : List Handler)
      → All (OnTrack policy) hs
      → All (λ h. has_returned h.pc ≡ true) hs
      → (total runs hs ≡ total acceptable hs) × (total uncounted hs ≡ 0)
  unfolding total
  total-acceptable [] t done = (refl, refl)
  total-acceptable (h ∷ hs) t done =
      let here = runs-acceptable h.pc h done.0 t.0 in
      let there = total-acceptable hs t.1 done.1 in (omega arith, omega arith)

  -- Once all calls have returned, however they were interleaved, the counter is the number of the
  -- messages in front of the first refused one, summed over all calls, modulo 2 ^ 64.
  pub counter-acceptable :
      {s : Service}
      → Reachable policy s
      → All (λ h. has_returned h.pc ≡ true) s.handlers
      → s.counter ≡ total acceptable s.handlers % 2 ^ 64
  counter-acceptable {s} r done =
      let exact = Reachable-IsExact r in
      let sums = total-acceptable s.handlers (Reachable-OnTrack policy r) done in
      omega (arith, exact.fits, exact.level)
