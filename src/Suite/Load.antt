-- ===== src/Suite/Load.antt =====
-- tst/load/cpp/ThroughputTest.cc: the load tests of the client, with `percentile`. How long a call takes is
-- left open: each test is proved for calls that are quick enough. The steady clock, in milliseconds, and
-- `std::sort` are parameters.
use mathlib.Core.Logic.Or
use mathlib.Core.List.{Mem, mem-cons, mem-cons_self, mem-cons_of_mem, not-mem-nil}
use native.Mathlib.Bridge.{le_prop}
use native.Mathlib.Nat.{mul-lt-mul_of_pos_left}
use rem_svc.Base.{
  ℕ, zero, suc, ◌+◌, ◌-◌, ◌*◌, ◌/◌, ◌≤◌, ◌<◌, List, [], ◌∷◌, ◌++◌, All, length, get_elem?, Option,
  some, Bytes, codes, ◌≡◌, refl, arith,
}
use rem_svc.Base.Int.{ℤ, pos}
use rem_svc.Client.{Stub, do_rem_cmd, do_rem_cmd_strm}

-- `kWarmup`, `kLoadCalls`, `kMinCmdPerSec`
abbrev k_warmup : ℕ
k_warmup = 5

abbrev k_load_calls : ℕ
k_load_calls = 50

abbrev k_min_cmd_per_sec : ℕ
k_min_cmd_per_sec = 5

-- More calls in a second than the floor, for a time in milliseconds.
abbrev AboveFloor : ℕ → ℕ → Type 0
AboveFloor calls ms = k_min_cmd_per_sec * ms < calls * 1000

get_elem?-Mem : (v : List ℕ) (i : ℕ) → i < length v → (x : ℕ) × (get_elem? v i ≡ some x) × Mem x v
get_elem?-Mem [] i h = absurd (omega arith)
get_elem?-Mem (x ∷ v) zero h = (x, refl, mem-cons_self)
get_elem?-Mem (x ∷ v) (suc i) h =
    let (y, e, m) = get_elem?-Mem v i (omega arith) in (y, e, mem-cons_of_mem x m)

Mem-All : (limit x : ℕ) (v : List ℕ) → All (λ y. y < limit) v → Mem x v → x < limit
Mem-All limit x [] a m = absurd (not-mem-nil m)
Mem-All limit x (y ∷ v) a m = Or.elim le_prop (mem-cons.0 m) (λ e. rw e a.0) (Mem-All limit x v a.1)

-- `std::sort` on the elements of a vector, which it rearranges.
record Sort : Type 0 where
  sort : List ℕ → List ℕ
  same_length : (v : List ℕ) → length (sort v) ≡ length v
  same_values : (v : List ℕ) (x : ℕ) → Mem x (sort v) → Mem x v

module _ (std : Sort) where
  -- `percentile`; `none` is an index that is out of range.
  percentile : List ℕ → ℕ → Option ℕ
  percentile v pct = get_elem? (std.sort v) (length v * pct / 100)

  -- The index of a percentage below 100 is in range where there are samples.
  percentile-Mem :
      (v : List ℕ) (pct : ℕ)
      → 0 < length v
      → pct < 100
      → (x : ℕ) × (percentile v pct ≡ some x) × Mem x v
  unfolding percentile
  percentile-Mem v pct h p =
      let fits : length v * pct / 100 < length (std.sort v) =
        omega (arith, mul-lt-mul_of_pos_left {k = length v} p h, std.same_length v) in
      let (x, e, m) = get_elem?-Mem (std.sort v) (length v * pct / 100) fits in
      (x, e, std.same_values v x m)

-- The calls of one client after one another, and the time of each.
repeat : {T : Type 0} → ℕ → (T → T) → T → T
repeat zero call t = t
repeat (suc n) call t = repeat n call (call t)

samples : {T : Type 0} → (T → ℕ) → ℕ → (T → T) → T → List ℕ
samples steady zero call t = []
samples steady (suc n) call t = (steady (call t) - steady t) ∷ samples steady n call (call t)

module _ {T : Type 0} (steady : T → ℕ) (call : T → T) (limit : ℕ) where
  -- Each call takes less than so many milliseconds.
  abbrev Quick : Type 0
  Quick = (t : T) → steady (call t) < steady t + limit

  repeat-time : Quick → (n : ℕ) (t : T) → steady (repeat n call t) ≤ steady t + n * limit
  unfolding repeat
  repeat-time quick zero t = omega arith
  repeat-time quick (suc n) t = grind (arith, repeat-time quick n (call t), quick t)

  samples-All :
      0 < limit → Quick → (n : ℕ) (t : T) → All (λ ms. ms < limit) (samples steady n call t)
  unfolding samples
  samples-All some_time quick zero t = tt
  samples-All some_time quick (suc n) t =
      (omega (arith, quick t), samples-All some_time quick n (call t))

  length-samples : (n : ℕ) (t : T) → length (samples steady n call t) ≡ n
  unfolding samples
  length-samples zero t = refl
  length-samples (suc n) t = omega (arith, length-samples n (call t))

  -- The middle of the samples is below the limit.
  median :
      (std : Sort) (n : ℕ) (t : T)
      → 0 < limit
      → Quick
      → 0 < n
      → (p50 : ℕ) × (percentile std (samples steady n call t) 50 ≡ some p50) × (p50 < limit)
  median std n t some_time quick some_calls =
      let v = samples steady n call t in
      let (p50, e, m) =
        percentile-Mem std v 50 (omega (arith, length-samples n t, some_calls)) (omega arith) in
      (p50, e, Mem-All limit p50 v (samples-All some_time quick n t) m)

module _ {T : Type 0} (stub : Stub T) (steady : T → ℕ) (std : Sort) (t : T) where
  abbrev unary : Bytes → T → T
  unary cmd t = (do_rem_cmd stub t cmd (pos 0) (pos 0) []).0

  abbrev warm : T
  warm = repeat k_warmup (unary (codes "echo warmup")) t

  abbrev RemCmdUnaryThroughput : Type 0
  RemCmdUnaryThroughput =
      let end = repeat k_load_calls (unary (codes "echo hello")) warm in
      AboveFloor k_load_calls (steady end - steady warm)

  unary_throughput : Quick steady (unary (codes "echo hello")) 199 → RemCmdUnaryThroughput
  unary_throughput quick =
      omega (arith, repeat-time steady (unary (codes "echo hello")) 199 quick k_load_calls warm)

  -- `EXPECT_LT(p50, 5000.0)`
  abbrev RemCmdUnaryLatency : Type 0
  RemCmdUnaryLatency =
      let ms = samples steady k_load_calls (unary (codes "echo hello")) warm in
      (p50 : ℕ) × (percentile std ms 50 ≡ some p50) × (p50 < 5000)

  unary_latency : Quick steady (unary (codes "echo hello")) 5000 → RemCmdUnaryLatency
  unary_latency quick =
      median steady (unary (codes "echo hello")) 5000 std k_load_calls warm (omega arith) quick
        (omega arith)

-- Streams, whose reading loop has enough fuel: `call` is what such a stream leaves.
module _ {T : Type 0} (stub : Stub T) (fuel : ℕ) (steady : T → ℕ) (std : Sort) (t : T) where
  abbrev Streams : List Bytes → (T → T) → Type 0
  Streams cmds call =
      (t : T) → (rc : ℤ) × (do_rem_cmd_strm stub fuel t cmds (pos 0) [] ≡ some (call t, rc))

  abbrev copies : ℕ → Bytes → List Bytes
  copies zero cmd = []
  copies (suc n) cmd = cmd ∷ copies n cmd

  abbrev RemCmdStrmThroughput : Type 0
  RemCmdStrmThroughput =
      (warm call : T → T)
      → Streams (copies k_warmup (codes "echo warmup")) warm
      → Streams (copies k_load_calls (codes "echo hello")) call
      → Quick steady call 10000
      → AboveFloor k_load_calls (steady (call (warm t)) - steady (warm t))

  stream_throughput : RemCmdStrmThroughput
  stream_throughput warm call w c quick = omega (arith, quick (warm t))

  abbrev RemCmdStrmLatency : Type 0
  RemCmdStrmLatency =
      (warm call : T → T)
      → Streams (copies k_warmup (codes "echo warmup")) warm
      → Streams (codes "echo hello" ∷ []) call
      → Quick steady call 5000
      → (p50 : ℕ) × (percentile std (samples steady k_load_calls call (warm t)) 50 ≡ some p50)
        × (p50 < 5000)

  stream_latency : RemCmdStrmLatency
  stream_latency warm call w c quick =
      median steady call 5000 std k_load_calls (warm t) (omega arith) quick (omega arith)

-- The clients on their threads: the calls that each has left, and `totalCalls`.
data Threads : List ℕ → ℕ → Type 0 where
  spawned : Threads (10 ∷ 10 ∷ 10 ∷ 10 ∷ []) 0
  called :
      (left : List ℕ) (n : ℕ) (rest : List ℕ) {total : ℕ}
      → Threads (left ++ suc n ∷ rest) total
      → Threads (left ++ n ∷ rest) (suc total)

sum : List ℕ → ℕ
sum [] = 0
sum (n ∷ ns) = n + sum ns

sum-one_less : (ns rest : List ℕ) (n : ℕ) → sum (ns ++ suc n ∷ rest) ≡ suc (sum (ns ++ n ∷ rest))
unfolding sum
sum-one_less [] rest n = omega arith
sum-one_less (k ∷ ns) rest n = omega (arith, sum-one_less ns rest n)

Threads-total : {left : List ℕ} {total : ℕ} → Threads left total → total + sum left ≡ 40
unfolding sum
Threads-total spawned = omega arith
Threads-total (called left n rest r) = omega (arith, Threads-total r, sum-one_less left rest n)

-- When all threads have joined, each of their calls was counted, in whatever order they came, and a time
-- below 8 seconds is short enough.
abbrev ConcurrentClientsUnaryThroughput : Type 0
ConcurrentClientsUnaryThroughput =
    (total ms : ℕ)
    → Threads (0 ∷ 0 ∷ 0 ∷ 0 ∷ []) total
    → ms < 8000
    → (total ≡ 4 * 10) × AboveFloor total ms

all_counted : ConcurrentClientsUnaryThroughput
unfolding sum
all_counted total ms r quick = omega (arith, Threads-total r)
