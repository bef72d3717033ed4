-- ===== src/Service/Threads.antt =====
-- The handlers `RemCmd` and `processStream` of src/server/RemSvcServiceImpl.cc on the threads of gRPC.
-- A handler goes through its loop in steps, between which the others move; all share the counter
-- `m_commandsExecuted`. What the runner returns is chosen at each call, so the commands may act on one
-- another in any way.
pub mod Counter
pub mod Track
pub mod Isolation
mod Tests
use rem_svc.Base.{ℕ, List, [], ◌∷◌, ◌++◌, not, ◌&&◌, is_empty, bytes_eq, if◌then◌else◌, ◌≡◌}
use rem_svc.Proto.{RemCmdMsg, RemResMsg, Status, status_ok, permission_denied, invalid_argument}
use rem_svc.Policy.{RegexEngine, Policy, check_allowed}
use rem_svc.Crc.{crc32_hex}
use rem_svc.Service.{Outcome, truncate_output, count_one, hash_mismatch_text}

-- The next thing that a handler does: `Read`, the two checks, the call of the runner, the increment,
-- `Write`; or nothing, once it has returned.
pub data Pc : Type 0 where
  reading : Pc
  checking : RemCmdMsg → Pc
  executing : RemCmdMsg → Pc
  executed : RemCmdMsg → Outcome → Pc
  counted : RemCmdMsg → Outcome → Pc
  returned : Status → Pc

-- One call. `messages` is all that the client sends and `ran` the calls of the runner so far, for the
-- statements; the code has the others: what `Read` will still deliver, and what was written.
pub record Handler : Type 0 where
  pub messages : List RemCmdMsg
  pub ran : List (RemCmdMsg × Outcome)
  pub pc : Pc
  pub todo : List RemCmdMsg
  pub written : List RemResMsg

-- `RemCmdStrm` is called.
abbrev pub begin_stream : List RemCmdMsg → Handler
begin_stream reqs = record { messages = reqs; ran = []; pc = reading; todo = reqs; written = [] }

-- `RemCmd` is called: it does not read, and its one response is what it fills in.
abbrev pub begin_unary : RemCmdMsg → Handler
begin_unary req = record {
  messages = req ∷ [];
  ran = [];
  pc = checking req;
  todo = [];
  written = [];
}

abbrev pub response : RemCmdMsg × Outcome → RemResMsg
response (req, o) = record {
  rc = o.rc;
  tid = req.tid;
  out = truncate_output o.out;
  err = truncate_output o.err;
  hsh = req.hsh;
}

module _ {engine : RegexEngine} (policy : Policy engine) where
  -- Both checks.
  unfoldable pub check : RemCmdMsg → Pc
  check req =
      let deny = check_allowed engine policy req.cmd in
      if not (is_empty deny)
      then returned (record { code = permission_denied; message = deny })
      else if not (is_empty req.hsh) && not (bytes_eq req.hsh (crc32_hex req.cmd))
      then returned (record { code = invalid_argument; message = hash_mismatch_text })
      else executing req

  read_next : List RemCmdMsg → Handler → Handler
  read_next [] h = record h { pc = returned status_ok }
  read_next (req ∷ rest) h = record h { pc = checking req; todo = rest }

  advance_from : Pc → Outcome → ℕ → Handler → ℕ × Handler
  unfolding read_next
  advance_from reading o n h = (n, read_next h.todo h)
  advance_from (checking req) o n h = (n, record h { pc = check req })
  advance_from (executing req) o n h =
      (n, record h { pc = executed req o; ran = h.ran ++ (req, o) ∷ [] })
  advance_from (executed req result) o n h = (count_one n, record h { pc = counted req result })
  advance_from (counted req result) o n h =
      (n, record h { pc = reading; written = h.written ++ response (req, result) ∷ [] })
  advance_from (returned st) o n h = (n, record h { pc = returned st })

  -- A step of one handler, with the counter. `o` is what the runner returns, if it is called.
  pub advance : Outcome → ℕ → Handler → ℕ × Handler
  unfolding advance_from
  advance o n h = advance_from h.pc o n h

-- The service: the counter, and all calls so far.
pub record Service : Type 0 where
  pub counter : ℕ
  pub handlers : List Handler

abbrev pub new_service : Service
new_service = record { counter = 0; handlers = [] }

-- A call comes in, or one of the handlers makes a step.
pub data Step {engine : RegexEngine} (policy : Policy engine) (s : Service) : Service → Type 0 where
  streams :
      (reqs : List RemCmdMsg)
      → Step policy s (record s { handlers = s.handlers ++ begin_stream reqs ∷ [] })
  calls :
      (req : RemCmdMsg) → Step policy s (record s { handlers = s.handlers ++ begin_unary req ∷ [] })
  moves :
      (front : List Handler) (h : Handler) (back : List Handler) (o : Outcome)
      → s.handlers ≡ front ++ h ∷ back
      → Step policy s (record {
        counter = (advance policy o s.counter h).0;
        handlers = front ++ (advance policy o s.counter h).1 ∷ back;
      })

pub data Reachable {engine : RegexEngine} (policy : Policy engine) : Service → Type 0 where
  start : Reachable policy new_service
  later : {s t : Service} → Reachable policy s → Step policy s t → Reachable policy t
