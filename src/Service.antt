-- ===== src/Service.antt =====
-- src/server/RemSvcServiceImpl.{hh,cc}: the handlers of the service. The state is what the handlers
-- change, the counter of executed commands and the world that the command runner acts on.
-- `CmdRunner` is a parameter; `int64_t` is its bit pattern below 2 ^ 64, and its text is signed.
pub mod Execute
pub mod Stream
pub mod Integrity
pub mod Interface
pub mod Encoding
pub mod Output
pub mod Report
pub mod Threads
mod Tests
use rem_svc.Base.{
  ℕ, ◌+◌, ◌-◌, ◌/◌, ◌%◌, ◌^◌, List, [], ◌∷◌, ◌++◌, not, ◌&&◌, Bytes, codes, is_empty, length, take,
  bytes_eq, ltb, if◌then◌else◌,
}
use rem_svc.Base.Int.{ℤ, pos, negsuc, int_text, nat_text}
use rem_svc.Proto.{
  PingMsg, PongMsg, StatusMsg, RemCmdMsg, RemResMsg, Status, status_ok, permission_denied,
  invalid_argument,
}
use rem_svc.Policy.{RegexEngine, Policy, check_allowed}
use rem_svc.Crc.{crc32_hex}

-- `kMaxOutputBytes`
abbrev pub max_output_bytes : ℕ
max_output_bytes = 262144

-- `kTruncationMarker`
abbrev pub truncation_marker : Bytes
truncation_marker = 10 ∷ 1 ∷ (codes "[remSvc: output truncated at 262144 bytes]" ++ 1 ∷ 10 ∷ [])

unfoldable pub truncate_output : Bytes → Bytes
truncate_output s =
    if ltb max_output_bytes (length s) then take max_output_bytes s ++ truncation_marker else s

-- What a runner leaves in `out` and `err`, which it is handed empty, and returns.
pub record Outcome : Type 0 where
  pub rc : ℤ
  pub out : Bytes
  pub err : Bytes

abbrev pub CmdRunner : Type 0 → Type 0
CmdRunner W = W → Bytes → ℤ → Bytes → W × Outcome

-- `++m_commandsExecuted` on `std::atomic<int64_t>`, which wraps.
abbrev pub count_one : ℕ → ℕ
count_one n = (n + 1) % 2 ^ 64

-- The value of an `int64_t` bit pattern.
abbrev pub signed64 : ℕ → ℤ
signed64 n = if ltb n (2 ^ 63) then pos n else negsuc (2 ^ 64 - n - 1)

pub record State (W : Type 0) : Type 0 where
  pub commands_executed : ℕ
  pub world : W

abbrev pub hash_mismatch_text : Bytes
hash_mismatch_text = codes "hash mismatch: command integrity check failed"

-- `Ping` echoes the message.
unfoldable pub ping : PingMsg → Status × PongMsg
ping p = (status_ok, record { seq = p.seq; time = p.time; payload = p.payload })

-- `GetStatus`: the times of the steady clock are counted in nanoseconds.
unfoldable pub get_status : {W : Type 0} → ℕ → ℕ → State W → Status × StatusMsg
get_status start_time now s = (status_ok, record { rc = pos 0; msg = text })
  where
    uptime : ℕ
    uptime = (now - start_time) / 1000000000

    text : Bytes
    text =
        codes "state=OK uptime="
        ++ (nat_text uptime ++ (codes "s commands=" ++ int_text (signed64 s.commands_executed)))

module _ {engine : RegexEngine} {W : Type 0} (policy : Policy engine) (runner : CmdRunner W) where
  -- `RemCmd`: the response is changed only where the command is run.
  unfoldable pub rem_cmd : State W → RemCmdMsg → RemResMsg → State W × Status × RemResMsg
  rem_cmd s req res =
      let deny = check_allowed engine policy req.cmd in
      let expected = crc32_hex req.cmd in
      let (world, o) = runner s.world req.cmd req.cmdtyp req.cmdusr in
      if not (is_empty deny)
      then (s, record { code = permission_denied; message = deny }, res)
      else if not (is_empty req.hsh) && not (bytes_eq req.hsh expected)
      then (s, record { code = invalid_argument; message = hash_mismatch_text }, res)
      else (
        record { commands_executed = count_one s.commands_executed; world = world },
        status_ok,
        record {
          rc = o.rc;
          tid = req.tid;
          out = truncate_output o.out;
          err = truncate_output o.err;
          hsh = req.hsh;
        },
      )

  -- `processStream`: the messages that `Read` will deliver before it returns false, and the responses
  -- handed to `Write` so far. The result of `Write` is not looked at.
  unfoldable pub process_stream :
      State W → List RemCmdMsg → List RemResMsg → State W × Status × List RemResMsg
  process_stream s [] written = (s, status_ok, written)
  process_stream s (req ∷ rest) written =
      let deny = check_allowed engine policy req.cmd in
      let expected = crc32_hex req.cmd in
      let (world, o) = runner s.world req.cmd req.cmdtyp req.cmdusr in
      let res : RemResMsg = record {
        rc = o.rc;
        tid = req.tid;
        out = truncate_output o.out;
        err = truncate_output o.err;
        hsh = req.hsh;
      } in
      let more =
        process_stream (record { commands_executed = count_one s.commands_executed; world = world })
          rest (written ++ res ∷ []) in
      if not (is_empty deny)
      then (s, record { code = permission_denied; message = deny }, written)
      else if not (is_empty req.hsh) && not (bytes_eq req.hsh expected)
      then (s, record { code = invalid_argument; message = hash_mismatch_text }, written)
      else more
