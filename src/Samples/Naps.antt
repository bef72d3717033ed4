-- ===== src/Samples/Naps.antt =====
-- A system on which every command sleeps for ever, with a clock in milliseconds, and a channel to the service
-- on it that answers at once or not at all.
use rem_svc.Base.{
  ℕ, zero, suc, ◌+◌, ◌*◌, ◌<◌, ◌≤◌, [], none, some, Bool, true, false, codes, leb, ltb, ◌≡◌, refl,
  arith, inr, if◌then◌else◌,
}
use rem_svc.Base.Int.{ℤ, pos, negsuc}
use rem_svc.Proto.{Status, other, RemCmdMsg, RemResMsg, is_ok, empty_res}
use rem_svc.Policy.{RegexEngine, Policy}
use rem_svc.Service.{State, CmdRunner, rem_cmd}
use rem_svc.Process.{Os, drain}
use rem_svc.Process.Rounds.{after, EndsAfter, Expires}
use rem_svc.Process.Clock.{Clock, Within}
use rem_svc.Client.{ClientContext}
use rem_svc.Client.Deadline.{Channel}

abbrev pub expired_by : ℤ → ℕ → ℕ → Bool
expired_by (pos t) armed w = leb (armed + t) w
expired_by (negsuc t) armed w = false

abbrev pub naps : Os ℕ
naps = record {
  windows = false;
  to_argument = λ cmd. cmd;
  pwsh_path = [];
  getpwnam = λ name. none;
  start = λ w launch. w;
  wait_for_started = λ w. (w, true);
  close_write_channel = λ w. w;
  has_expired = expired_by;
  wait_for_ready_read = λ w. w + 50;
  read_output = λ w. (w, []);
  read_error = λ w. (w, []);
  is_running = λ w. true;
  kill = λ w. w;
  wait_for_finished = λ w. w + 1000;
  exit_code = λ w. pos 0;
  destroy = λ w. w;
}

pub goes_on : (d w : ℕ) → Within d w (w + d)
goes_on d w = omega arith

pub stays : (w : ℕ) → Within 0 w w
stays w = omega arith

abbrev pub ticks : Clock naps
ticks = record {
  now = λ w. w;
  slack = 0;
  start_ms = 0;
  start_time = λ w launch. stays w;
  started_time = stays;
  close_time = stays;
  expiry = λ t armed w. refl;
  wait_time = goes_on 50;
  output_time = stays;
  error_time = stays;
  kill_time = stays;
  finish_time = goes_on 1000;
  end_ms = 0;
  end_time = stays;
}

after-naps : (n w : ℕ) → after naps n w ≡ w + n * 50
unfolding after drain
after-naps zero w = omega arith
after-naps (suc n) w = omega (arith, after-naps n (w + 50))

-- The timer of so many times 50 milliseconds expires after so many rounds.
pub naps_expire : (n : ℕ) → Expires naps (pos (n * 50)) (λ w. n)
naps_expire n armed = ground (arith, after-naps n armed)

pub naps_last : (n armed w t : ℕ) → w + n * 50 ≡ armed + t → EndsAfter naps (pos t) armed n w
unfolding drain
naps_last zero armed w t h = ground arith
naps_last (suc n) armed w t h =
    (ground arith, inr (refl, naps_last n armed (w + 50) t (omega arith)))

abbrev pub too_late : Status
too_late = record { code = other 4; message = codes "Deadline Exceeded" }

module _ {engine : RegexEngine} (policy : Policy engine) (runner : CmdRunner ℕ) where
  abbrev pub in_time : ClientContext → ℕ → Bool
  in_time ctx time = elim ctx.deadline [ none ↦ true | some deadline ↦ ltb time deadline ]

  unfoldable pub answer : State ℕ → ClientContext → RemCmdMsg → State ℕ × Status × RemResMsg
  answer s ctx req =
      let (s', st, res) = rem_cmd policy runner s req empty_res in
      if in_time ctx s'.world then (s', st, res) else (s', too_late, empty_res)

  pub answer-reached :
      (s : State ℕ) (deadline : ℕ) (req : RemCmdMsg)
      → s.world < deadline
      → (answer s (record { deadline = some deadline }) req).0
        ≡ (rem_cmd policy runner s req empty_res).0
  unfolding answer
  answer-reached s deadline req h = ground arith

  pub answer-in_time :
      (s : State ℕ) (deadline : ℕ) (req : RemCmdMsg)
      → (rem_cmd policy runner s req empty_res).0.world + 0 < deadline
      → answer s (record { deadline = some deadline }) req ≡ rem_cmd policy runner s req empty_res
  unfolding answer
  answer-in_time s deadline req h = ground arith

  pub answer-late :
      (s : State ℕ) (deadline : ℕ) (req : RemCmdMsg)
      → deadline ≤ (rem_cmd policy runner s req empty_res).0.world
      → is_ok (answer s (record { deadline = some deadline }) req).1 ≡ false
  unfolding answer
  answer-late s deadline req h = ground arith

  -- The other calls are out of reach.
  abbrev pub prompt_channel : Channel policy runner (λ w. w)
  prompt_channel = record {
    stub = record {
      ping = λ s ctx msg. (s, too_late, record { seq = msg.seq; time = msg.time; payload = [] });
      get_status = λ s ctx. (s, too_late, record { rc = pos 0; msg = [] });
      rem_cmd = answer;
      rem_cmd_strm = λ s ctx. s;
      stream = record {
        write = λ s req. (s, false);
        read = λ s. (s, none);
        writes_done = λ s. s;
        finish = λ s. (s, too_late);
      };
    };
    latency = 0;
    reached = answer-reached;
    in_time = answer-in_time;
    late = answer-late;
  }
