-- ===== src/Signals/Delivery.antt =====
-- What the self-pipe of src/server/SignalHandler.cc guarantees.
use rem_svc.Base.{ℕ, zero, suc, ◌+◌, ◌*◌, ◌<◌, ◌≤◌, ◌≡◌, ◌⊎◌, inl, inr, refl, arith}
use mathlib.Core.Path.{subst}
use rem_svc.Signals.{
  Pipe, on_signal, handle_signal, end_write, Reaction, activated, written, signal, reaction,
  Reachable, start, after, Settling, rests, reacts,
}

-- Every signal has requested to quit, has its byte in the pipe, or has its write waiting.
pub record Accounts (room : ℕ) (p : Pipe) : Type 0 where
  pub each : p.quits + p.bytes + p.waiting ≡ p.signals
  pub fits : p.bytes ≤ room

on_signal-Accounts : (room : ℕ) (p : Pipe) → Accounts room p → Accounts room (on_signal room p)
unfolding on_signal
on_signal-Accounts room p a = record {
  each = ground (arith, a.each);
  fits = ground (arith, a.fits);
}

-- `handleSignal`, where there is a byte.
abbrev take_byte : ℕ → Pipe → Pipe
take_byte n p = record p { bytes = n; quits = suc p.quits }

handle_signal-take_byte : (p : Pipe) (n : ℕ) → p.bytes ≡ suc n → handle_signal p ≡ take_byte n p
unfolding handle_signal
handle_signal-take_byte p n e = rw e refl

Reaction-Accounts : {room : ℕ} {p q : Pipe} → Accounts room p → Reaction room p q → Accounts room q
Reaction-Accounts {p = p} a (activated {n = n} e) =
    rw (handle_signal-take_byte p n e) (record { each = omega arith; fits = omega arith })
Reaction-Accounts a (written h e) = record { each = omega arith; fits = omega arith }

activated_byte : {room : ℕ} (p : Pipe) (n : ℕ) → p.bytes ≡ suc n → Reaction room p (take_byte n p)
activated_byte {room = room} p n e =
    subst (Reaction room p) (handle_signal-take_byte p n e) (activated e)

-- What is still to be done: a waiting write and the byte that it writes are two.
abbrev due : Pipe → ℕ
due p = p.bytes + 2 * p.waiting

zero_or_suc : (n : ℕ) → (n ≡ 0) ⊎ ((m : ℕ) × (n ≡ suc m))
zero_or_suc zero = inl refl
zero_or_suc (suc m) = inr (m, refl)

-- The program settles by reactions alone, after which each signal has requested to quit.
Settled : ℕ → Pipe → Type 0
Settled room p = (q : Pipe) × Settling room p q × (q.quits ≡ p.signals)

due-Settled :
    {room : ℕ} (n : ℕ) (p : Pipe) → 0 < room → Accounts room p → due p ≤ n → Settled room p
unfolding Settled
due-Settled zero p h a le = (p, rests, omega arith)
due-Settled {room = room} (suc n) p h a le = elim (zero_or_suc p.bytes) [
  | inr (k, e) ↦
      let rest =
        due-Settled n (take_byte k p) h (record { each = omega arith; fits = omega arith })
          (omega arith) in
      (rest.0, reacts (activated_byte p k e) rest.1, rest.2)
  | inl none' ↦ elim (zero_or_suc p.waiting) [
    | inl idle ↦ (p, rests, omega arith)
    | inr (m, e) ↦
        let room_left : p.bytes < room = omega arith in
        let step = written room_left e in
        let rest = due-Settled n (end_write m p) h (Reaction-Accounts a step) (omega arith) in
        (rest.0, reacts step rest.1, rest.2)
  ]
]

-- In every state, each signal is accounted for, and the pipe holds no more than it can.
Reachable-Accounts : {room : ℕ} {p : Pipe} → Reachable room p → Accounts room p
Reachable-Accounts start = record { each = omega arith; fits = omega arith }
Reachable-Accounts (after r signal) = on_signal-Accounts _ _ (Reachable-Accounts r)
Reachable-Accounts (after r (reaction h)) = Reaction-Accounts (Reachable-Accounts r) h

-- No shutdown is lost: from every state that the program can be in, if the pipe has room for a byte, a
-- run without another signal leads to a state in which each signal so far has requested to quit.
pub signal_heard :
    {room : ℕ} {p : Pipe}
    → 0 < room
    → Reachable room p
    → (q : Pipe) × Settling room p q × (q.quits ≡ p.signals)
unfolding Settled
signal_heard {p = p} h r = due-Settled (due p) p h (Reachable-Accounts r) (omega arith)
