-- ===== src/Signals/Console.antt =====
-- src/server/SignalHandler.cc on Windows: the console handler, which Windows calls on a thread of its
-- own, queues `handleSignal` for the event loop once there is a `SignalHandler`. Windows itself ends the
-- process once a `CTRL_CLOSE_EVENT` has been answered, whatever is queued; that is not modelled, so the
-- theorem speaks of a process that still runs.
use rem_svc.Base.{ℕ, zero, suc, ◌+◌, Bool, true, false, if◌then◌else◌, ◌≡◌, refl, arith}

-- The events that Windows gives to a console handler.
pub data CtrlType : Type 0 where
  ctrl_c ctrl_break ctrl_close ctrl_logoff ctrl_shutdown : CtrlType

abbrev pub is_handled : CtrlType → Bool
is_handled ctrl_c = true
is_handled ctrl_close = true
is_handled other = false

-- Whether `g_signalHandler` is set, the queued calls of `handleSignal`, how often `quitRequested` was
-- emitted, and how many events the handler has answered with TRUE since `g_signalHandler` is set.
pub record Console : Type 0 where
  pub constructed : Bool
  pub queued : ℕ
  pub quits : ℕ
  pub taken : ℕ

-- The console handler, with its answer.
unfoldable pub console_handler : CtrlType → Console → Console × Bool
console_handler kind c =
    if is_handled kind
    then (
      (if c.constructed then record c { queued = suc c.queued; taken = suc c.taken } else c),
      true,
    )
    else (c, false)

-- The constructor of `SignalHandler`.
abbrev pub construct : Console → Console
construct c = record c { constructed = true }

-- The event loop calls `handleSignal`; `n` are the other queued calls.
abbrev pub call_queued : ℕ → Console → Console
call_queued n c = record c { queued = n; quits = suc c.quits }

abbrev pub installed : Console
installed = record { constructed = false; queued = 0; quits = 0; taken = 0 }

-- The states behind `setupSignalHandlers`.
pub data Runs : Console → Type 0 where
  starts : Runs installed
  constructs : {c : Console} → Runs c → Runs (construct c)
  event : {c : Console} (kind : CtrlType) → Runs c → Runs (console_handler kind c).0
  calls : {c : Console} {n : ℕ} → c.queued ≡ suc n → Runs c → Runs (call_queued n c)

-- The calls that are queued, all made.
pub make_calls : ℕ → Console → Console
make_calls zero c = c
make_calls (suc n) c = make_calls n (call_queued n c)

console_handler_accounts :
    (kind : CtrlType) (c : Console)
    → c.quits + c.queued ≡ c.taken
    → let c' = (console_handler kind c).0 in c'.quits + c'.queued ≡ c'.taken
unfolding console_handler
console_handler_accounts kind c h = ground arith

accounts : {c : Console} → Runs c → c.quits + c.queued ≡ c.taken
accounts starts = omega arith
accounts (constructs r) = accounts r
accounts (event {c = c} kind r) = console_handler_accounts kind c (accounts r)
accounts (calls e r) = omega (arith, accounts r, e)

make_calls-all :
    (n : ℕ) (c : Console)
    → c.queued ≡ n
    → Runs c
    → Runs (make_calls n c) × ((make_calls n c).queued ≡ 0) × ((make_calls n c).quits ≡ c.quits + n)
unfolding make_calls
make_calls-all zero c e r = (r, e, omega arith)
make_calls-all (suc n) c e r =
    let (more, none', counted) = make_calls-all n (call_queued n c) refl (calls e r) in
    (more, none', omega (arith, counted))

-- While the process runs, in every state behind `setupSignalHandlers`: the event loop can make the
-- queued calls, and then each event that was answered with TRUE since there is a `SignalHandler` has
-- requested to quit.
pub console_heard :
    {c : Console}
    → Runs c
    → Runs (make_calls c.queued c)
      × ((make_calls c.queued c).queued ≡ 0)
      × ((make_calls c.queued c).quits ≡ c.taken)
console_heard {c = c} r =
    let (more, none', counted) = make_calls-all c.queued c refl r in
    (more, none', omega (arith, counted, accounts r))
