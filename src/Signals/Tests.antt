-- ===== src/Signals/Tests.antt =====
-- Runs of the self-pipe of src/server/SignalHandler.cc.
use rem_svc.Base.{◌<◌, ◌≡◌, arith, true, refl}
use rem_svc.Signals.{Pipe, no_signals, on_signal, signal, Reachable, start, after, Settling}
use rem_svc.Signals.Console.{
  Console, ctrl_c, ctrl_break, console_handler, construct, installed, Runs, starts, constructs,
  event,
}
use rem_svc.Signals.Delivery.{signal_heard}

-- Two signals in a row, into a pipe with room for one byte.
abbrev two_signals : Pipe
two_signals = on_signal 1 (on_signal 1 no_signals)

two_signals-Reachable : Reachable 1 two_signals
two_signals-Reachable = after (after start signal) signal

signal_heard_example : (q : Pipe) × Settling 1 two_signals q × (q.quits ≡ two_signals.signals)
signal_heard_example = signal_heard (let h : 0 < 1 = omega arith in h) two_signals-Reachable

-- Ctrl-C twice, the first before there is a `SignalHandler`, then Ctrl-Break.
abbrev interrupted : Console
interrupted =
    (console_handler ctrl_break
      (console_handler ctrl_c (construct (console_handler ctrl_c installed).0)).0).0

interrupted-Runs : Runs interrupted
interrupted-Runs = event ctrl_break (event ctrl_c (constructs (event ctrl_c starts)))

-- The event in front of the construction is answered and not heard.
swallowed : console_handler ctrl_c installed ≡ (installed, true)
unfolding console_handler
swallowed = refl
