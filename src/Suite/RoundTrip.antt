-- ===== src/Suite/RoundTrip.antt =====
-- tst/integ/cpp/GrpcRoundTripTest.cc: the client against the server without access lists, over a
-- transport that delivers every message. What the shells of all platforms do with `echo`, and with a
-- command that there is none, is a parameter.
use rem_svc.Base.{
  ℕ, zero, suc, ◌-◌, ◌/◌, for_all, List, [], ◌∷◌, ◌++◌, Option, none, some, true, false, Bytes,
  codes, is_empty, length, bytes_eq, ltb, ◌≡◌, refl, arith, Bool-cases, inl, inr,
}
use rem_svc.Base.Int.{ℤ, pos, is_nonzero, nat_text, int_text}
use rem_svc.Proto.{invalid_argument, is_ok}
use rem_svc.Crc.{crc32_hex}
use rem_svc.Policy.{RegexEngine, Policy, make_policy, check_allowed}
use rem_svc.Service.{
  CmdRunner, ping, get_status, rem_cmd, process_stream, truncate_output, max_output_bytes, signed64,
}
use rem_svc.Service.Execute.{run_one}
use rem_svc.Client.{
  ClientContext, Stub, make_request, do_ping, do_get_status, do_rem_cmd, do_rem_cmd_strm,
}
use rem_svc.Client.EndToEnd.{Wire, wire_stub, do_rem_cmd_delivered, do_rem_cmd_strm_delivered}
use rem_svc.Suite.Fakes.{contains, contains-append, make_req, Returns}

abbrev echo_hello : Bytes
echo_hello = codes "echo hello"

abbrev no_such_command : Bytes
no_such_command = codes "__no_such_command_remsvc_test__"

-- A runner that starts a shell.
record Shell {W : Type 0} (runner : CmdRunner W) : Type 0 where
  echo_succeeds : (w : W) → (runner w echo_hello (pos 0) []).1.rc ≡ pos 0
  echo_writes : (w : W) → is_empty (runner w echo_hello (pos 0) []).1.out ≡ false
  unknown_fails : (w : W) → is_nonzero (runner w no_such_command (pos 0) []).1.rc ≡ true

is_empty-truncate_output : (s : Bytes) → is_empty s ≡ false → is_empty (truncate_output s) ≡ false
unfolding truncate_output
is_empty-truncate_output [] h = absurd (ground (arith, h))
is_empty-truncate_output (x ∷ s) h = elim (Bool-cases (ltb max_output_bytes (length (x ∷ s)))) [
  | inl long ↦ rw long refl
  | inr short ↦ rw short refl
]

-- The `ClientContext` of the tests that call the stub.
abbrev no_deadline : ClientContext
no_deadline = record { deadline = none }

-- The reading loop of the test, on fuel: the transaction ids that were received.
receive : {T : Type 0} → Stub T → ℕ → T → List ℤ → Option (T × List ℤ)
receive stub zero t received = none
receive stub (suc fuel) t received = elim (stub.read t).1 [
  | none ↦ some ((stub.read t).0, received)
  | some res ↦ receive stub fuel (stub.read t).0 (received ++ res.tid ∷ [])
]

module _ (engine : RegexEngine) {W : Type 0} (runner : CmdRunner W) (shell : Shell runner)
    (start_time now : ℕ) (t : Wire W) where
  abbrev policy : Policy engine
  policy = make_policy engine [] []

  -- `makeClient`
  abbrev client : Stub (Wire W)
  client = wire_stub policy runner start_time now

  abbrev PingReturnsSuccess : ℤ → Bytes → Type 0
  PingReturnsSuccess unix_seconds iso =
      let (t', pr) = do_ping client unix_seconds iso t (pos 1) in
      (pr.ok ≡ true) × (pr.seq_echo ≡ pos 1)

  ping_returns : (unix_seconds : ℤ) (iso : Bytes) → PingReturnsSuccess unix_seconds iso
  unfolding do_ping ping
  ping_returns unix_seconds iso = (refl, refl)

  abbrev RemCmdEchoReturnsZero : Type 0
  RemCmdEchoReturnsZero = (do_rem_cmd client t echo_hello (pos 0) (pos 0) []).1 ≡ pos 0

  echo_returns_zero : RemCmdEchoReturnsZero
  unfolding run_one make_request make_policy check_allowed
  echo_returns_zero =
      rw (do_rem_cmd_delivered policy runner start_time now t echo_hello (pos 0) (pos 0) [])
        (shell.echo_succeeds t.state.world)

  abbrev RemCmdNonExistentCommandReturnsNonZero : Type 0
  RemCmdNonExistentCommandReturnsNonZero =
      is_nonzero (do_rem_cmd client t no_such_command (pos 0) (pos 0) []).1 ≡ true

  unknown_returns_nonzero : RemCmdNonExistentCommandReturnsNonZero
  unfolding run_one make_request make_policy check_allowed
  unknown_returns_nonzero =
      rw (do_rem_cmd_delivered policy runner start_time now t no_such_command (pos 0) (pos 0) [])
        (shell.unknown_fails t.state.world)

  abbrev RemCmdBadHashIsRejected : Type 0
  RemCmdBadHashIsRejected =
      let (t', status, res) =
        client.rem_cmd t no_deadline (make_req echo_hello (pos 0) (codes "deadbeef")) in
      (status.code ≡ invalid_argument) × (contains (codes "hash mismatch") status.message ≡ true)

  bad_hash_rejected : RemCmdBadHashIsRejected
  unfolding rem_cmd make_policy check_allowed crc32_hex bytes_eq
  bad_hash_rejected = (refl, refl)

  abbrev RemCmdResponseFieldsArePopulated : Type 0
  RemCmdResponseFieldsArePopulated =
      let hash = crc32_hex echo_hello in
      let (t', status, res) = client.rem_cmd t no_deadline (make_req echo_hello (pos 99) hash) in
      (is_ok status ≡ true)
      × (res.rc ≡ pos 0)
      × (res.tid ≡ pos 99)
      × (res.hsh ≡ hash)
      × (is_empty res.out ≡ false)

  fields_populated : RemCmdResponseFieldsArePopulated
  unfolding rem_cmd make_policy check_allowed crc32_hex bytes_eq
  fields_populated = (
    refl,
    shell.echo_succeeds t.state.world,
    refl,
    refl,
    is_empty-truncate_output _ (shell.echo_writes t.state.world),
  )

  abbrev GetStatusReturnsOk : Type 0
  GetStatusReturnsOk =
      let (t', sr) = do_get_status client t in
      (sr.ok ≡ true)
      × (sr.rc ≡ pos 0)
      × (contains (codes "state=OK") sr.msg ≡ true)
      × (contains (codes "uptime=") sr.msg ≡ true)
      × (contains (codes "commands=") sr.msg ≡ true)

  status_returned : GetStatusReturnsOk
  unfolding do_get_status get_status
  status_returned = (
    refl,
    refl,
    refl,
    refl,
    contains-append (codes "commands=") (nat_text ((now - start_time) / 1000000000))
        (codes "s commands=" ++ int_text (signed64 t.state.commands_executed)) refl,
  )

  abbrev RemCmdStrmMultipleCommandsReturnZero : Type 0
  RemCmdStrmMultipleCommandsReturnZero =
      Returns (λ (t', rc). rc ≡ pos 0)
        (do_rem_cmd_strm client 3 t (echo_hello ∷ codes "echo world" ∷ []) (pos 0) [])

  stream_returns_zero : RemCmdStrmMultipleCommandsReturnZero
  unfolding make_policy check_allowed for_all
  stream_returns_zero =
      let (t', result, state) =
        do_rem_cmd_strm_delivered policy runner start_time now 3 t
          (echo_hello ∷ codes "echo world" ∷ []) (pos 0) [] (omega arith) in
      rw result refl

  abbrev RemCmdStrmResponsesAreInOrder : Type 0
  RemCmdStrmResponsesAreInOrder =
      let hash = crc32_hex echo_hello in
      let t1 = client.open_stream t no_deadline in
      let t2 = client.write t1 (make_req echo_hello (pos 10) hash) in
      let t3 = client.write t2.0 (make_req echo_hello (pos 20) hash) in
      let t4 = client.write t3.0 (make_req echo_hello (pos 30) hash) in
      (t2.1 ≡ true)
      × (t3.1 ≡ true)
      × (t4.1 ≡ true)
      × Returns
          (λ (t', received).
            (is_ok (client.finish t').1 ≡ true) × (received ≡ pos 10 ∷ pos 20 ∷ pos 30 ∷ []))
          (receive client 4 (client.writes_done t4.0) [])

  responses_in_order : RemCmdStrmResponsesAreInOrder
  unfolding process_stream make_policy check_allowed crc32_hex bytes_eq receive
  responses_in_order = (refl, refl, refl, (refl, refl))
