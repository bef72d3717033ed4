-- ===== src/Signals.antt =====
-- src/server/SignalHandler.cc on POSIX: SIGINT and SIGTERM through a self-pipe. The program's two ways
-- to act are steps: the function that `sigaction` installs, and `handleSignal`, which the notifier calls
-- when the pipe has a byte. The pipe holds at most `room` bytes, and a `write` waits while it is full.
pub mod Console
pub mod Delivery
mod Tests
use rem_svc.Base.{ℕ, zero, suc, ◌<◌, ltb, if◌then◌else◌, ◌≡◌}

-- The bytes in the pipe, the writes that wait for room, how often `quitRequested` was emitted, and how
-- many signals arrived.
pub record Pipe : Type 0 where
  pub bytes : ℕ
  pub waiting : ℕ
  pub quits : ℕ
  pub signals : ℕ

abbrev pub no_signals : Pipe
no_signals = record { bytes = 0; waiting = 0; quits = 0; signals = 0 }

-- The installed handler writes one byte.
unfoldable pub on_signal : ℕ → Pipe → Pipe
on_signal room p =
    if ltb p.bytes room
    then record p { bytes = suc p.bytes; signals = suc p.signals }
    else record p { waiting = suc p.waiting; signals = suc p.signals }

-- `handleSignal` reads a byte, if there is one, and emits `quitRequested`.
unfoldable pub handle_signal : Pipe → Pipe
handle_signal p = elim p.bytes [
  | zero ↦ record p { quits = suc p.quits }
  | suc n ↦ record p { bytes = n; quits = suc p.quits }
]

-- A write that has waited ends; `n` are the others.
abbrev pub end_write : ℕ → Pipe → Pipe
end_write n p = record p { bytes = suc p.bytes; waiting = n }

-- One step of the program apart from a signal; the notifier is active only while the pipe has a byte.
pub data Reaction (room : ℕ) : Pipe → Pipe → Type 0 where
  activated : {p : Pipe} {n : ℕ} → p.bytes ≡ suc n → Reaction room p (handle_signal p)
  written :
      {p : Pipe} {n : ℕ} → p.bytes < room → p.waiting ≡ suc n → Reaction room p (end_write n p)

-- One step of the program.
pub data Step (room : ℕ) : Pipe → Pipe → Type 0 where
  signal : {p : Pipe} → Step room p (on_signal room p)
  reaction : {p q : Pipe} → Reaction room p q → Step room p q

-- The states that the program can be in.
pub data Reachable (room : ℕ) : Pipe → Type 0 where
  start : Reachable room no_signals
  after : {p q : Pipe} → Reachable room p → Step room p q → Reachable room q

-- A run without another signal.
pub data Settling (room : ℕ) : Pipe → Pipe → Type 0 where
  rests : {p : Pipe} → Settling room p p
  reacts : {p q r : Pipe} → Reaction room p q → Settling room q r → Settling room p r
