-- ===== src/Suite/Calling.antt =====
-- tst/unit/cpp/RemSvcClientTest.cc: the client over a double of the stub.
use rem_svc.Base.{
  ℕ, suc, List, [], ◌∷◌, ◌++◌, Option, none, true, false, codes, Bytes, length, map, get_elem?, leb,
  if◌then◌else◌, ◌≡◌, refl,
}
use rem_svc.Base.Int.{ℤ, pos}
use rem_svc.Proto.{
  PongMsg, StatusMsg, RemCmdMsg, RemResMsg, Status, status_ok, other, is_ok, empty_cmd, empty_res,
}
use rem_svc.Crc.{crc32_hex}
use rem_svc.Client.{
  Stub, make_request, do_ping, do_get_status, do_rem_cmd, send_all, read_loop, do_rem_cmd_strm,
}
use rem_svc.Suite.Fakes.{Returns}

-- `FakeStub`, with the index of the `FakeStreamView` that is open.
record FakeStub : Type 0 where
  ping_status : Status
  ping_response : PongMsg
  status_rpc_status : Status
  status_response : StatusMsg
  rem_cmd_status : Status
  rem_cmd_response : RemResMsg
  captured_rem_cmd_req : RemCmdMsg
  strm_written : List RemCmdMsg
  strm_responses : List RemResMsg
  strm_finish_status : Status
  read_idx : ℕ

-- A message that is filled in only where the status is OK.
abbrev answer : {M : Type 0} → Status → M → M → M
answer st res unset = if is_ok st then res else unset

abbrev no_pong : PongMsg
no_pong = record { seq = pos 0; time = pos 0; payload = [] }

abbrev no_status : StatusMsg
no_status = record { rc = pos 0; msg = [] }

-- The functions of `FakeStub` and of `FakeStreamView`.
abbrev fake_stub : Stub FakeStub
fake_stub = record {
  now = λ f. 0;
  ping = λ f ctx req. (f, f.ping_status, answer f.ping_status f.ping_response no_pong);
  get_status =
      λ f ctx. (f, f.status_rpc_status, answer f.status_rpc_status f.status_response no_status);
  rem_cmd = λ f ctx req. (
    record f { captured_rem_cmd_req = req },
    f.rem_cmd_status,
    answer f.rem_cmd_status f.rem_cmd_response empty_res,
  );
  open_stream = λ f ctx. record f { read_idx = 0 };
  write = λ f msg. (record f { strm_written = f.strm_written ++ msg ∷ [] }, true);
  writes_done = λ f. f;
  read = λ f.
      if leb (length f.strm_responses) f.read_idx
      then (f, none)
      else (record f { read_idx = suc f.read_idx }, get_elem? f.strm_responses f.read_idx);
  finish = λ f. (f, f.strm_finish_status);
}

-- `makeClient`
abbrev make_client : FakeStub
make_client = record {
  ping_status = status_ok;
  ping_response = no_pong;
  status_rpc_status = status_ok;
  status_response = no_status;
  rem_cmd_status = status_ok;
  rem_cmd_response = empty_res;
  captured_rem_cmd_req = empty_cmd;
  strm_written = [];
  strm_responses = [];
  strm_finish_status = status_ok;
  read_idx = 0;
}

-- `grpc::Status(grpc::StatusCode::UNAVAILABLE, "down")`
abbrev down : Status
down = record { code = other 14; message = codes "down" }

-- The time of the call is left open.
module _ (unix_seconds : ℤ) (iso : Bytes) where
  abbrev PingReturnsTrueOnOkStatus : Type 0
  PingReturnsTrueOnOkStatus =
      let stub : FakeStub = record make_client { ping_response = record no_pong { seq = pos 7 } } in
      let (stub', pr) = do_ping fake_stub unix_seconds iso stub (pos 7) in
      (pr.ok ≡ true) × (pr.seq_echo ≡ pos 7)

  ping_answered : PingReturnsTrueOnOkStatus
  unfolding do_ping
  ping_answered = (refl, refl)

  abbrev PingReturnsFalseOnRpcError : Type 0
  PingReturnsFalseOnRpcError =
      let stub : FakeStub = record make_client { ping_status = down } in
      let (stub', pr) = do_ping fake_stub unix_seconds iso stub (pos 1) in pr.ok ≡ false

  ping_failed : PingReturnsFalseOnRpcError
  unfolding do_ping
  ping_failed = refl

abbrev GetStatusReturnsTrueOnOkStatus : Type 0
GetStatusReturnsTrueOnOkStatus =
    let stub : FakeStub = record make_client {
      status_response = record { rc = pos 0; msg = codes "running" };
    } in
    let (stub', sr) = do_get_status fake_stub stub in
    (sr.ok ≡ true) × (sr.rc ≡ pos 0) × (sr.msg ≡ codes "running")

status_answered : GetStatusReturnsTrueOnOkStatus
unfolding do_get_status
status_answered = (refl, refl, refl)

abbrev GetStatusReturnsFalseOnRpcError : Type 0
GetStatusReturnsFalseOnRpcError =
    let stub : FakeStub = record make_client { status_rpc_status = down } in
    let (stub', sr) = do_get_status fake_stub stub in sr.ok ≡ false

status_failed : GetStatusReturnsFalseOnRpcError
unfolding do_get_status
status_failed = refl

abbrev RemCmdForwardsCommand : Type 0
RemCmdForwardsCommand =
    let (stub', rc) =
      do_rem_cmd fake_stub make_client (codes "dir /b") (pos 0) (pos 0) (codes "") in
    stub'.captured_rem_cmd_req.cmd ≡ codes "dir /b"

sends_command : RemCmdForwardsCommand
unfolding do_rem_cmd make_request
sends_command = refl

abbrev RemCmdSendsCrc32Hash : Type 0
RemCmdSendsCrc32Hash =
    let (stub', rc) =
      do_rem_cmd fake_stub make_client (codes "dir /b") (pos 0) (pos 0) (codes "") in
    stub'.captured_rem_cmd_req.hsh ≡ crc32_hex (codes "dir /b")

sends_hash : RemCmdSendsCrc32Hash
unfolding do_rem_cmd make_request
sends_hash = refl

abbrev RemCmdForwardsCmdtyp : Type 0
RemCmdForwardsCmdtyp =
    let (stub', rc) =
      do_rem_cmd fake_stub make_client (codes "Get-Date") (pos 1) (pos 0) (codes "") in
    stub'.captured_rem_cmd_req.cmdtyp ≡ pos 1

sends_cmdtyp : RemCmdForwardsCmdtyp
unfolding do_rem_cmd make_request
sends_cmdtyp = refl

abbrev RemCmdForwardsTid : Type 0
RemCmdForwardsTid =
    let (stub', rc) = do_rem_cmd fake_stub make_client (codes "dir") (pos 0) (pos 42) (codes "") in
    stub'.captured_rem_cmd_req.tid ≡ pos 42

sends_tid : RemCmdForwardsTid
unfolding do_rem_cmd make_request
sends_tid = refl

abbrev RemCmdReturnsExitCode : Type 0
RemCmdReturnsExitCode =
    let stub : FakeStub = record make_client {
      rem_cmd_response = record empty_res { rc = pos 5 };
    } in
    let (stub', rc) = do_rem_cmd fake_stub stub (codes "cmd") (pos 0) (pos 0) (codes "") in
    rc ≡ pos 5

returns_rc : RemCmdReturnsExitCode
unfolding do_rem_cmd make_request
returns_rc = refl

abbrev RemCmdReturnsOneOnRpcFailure : Type 0
RemCmdReturnsOneOnRpcFailure =
    let stub : FakeStub = record make_client { rem_cmd_status = down } in
    let (stub', rc) = do_rem_cmd fake_stub stub (codes "cmd") (pos 0) (pos 0) (codes "") in
    rc ≡ pos 1

returns_one : RemCmdReturnsOneOnRpcFailure
unfolding do_rem_cmd make_request
returns_one = refl

abbrev RemCmdForwardsCmdusr : Type 0
RemCmdForwardsCmdusr =
    let (stub', rc) =
      do_rem_cmd fake_stub make_client (codes "echo hi") (pos 0) (pos 0) (codes "deploy") in
    stub'.captured_rem_cmd_req.cmdusr ≡ codes "deploy"

sends_cmdusr : RemCmdForwardsCmdusr
unfolding do_rem_cmd make_request
sends_cmdusr = refl

abbrev RemCmdEmptyCmdusrNotSet : Type 0
RemCmdEmptyCmdusrNotSet =
    let (stub', rc) =
      do_rem_cmd fake_stub make_client (codes "echo hi") (pos 0) (pos 0) (codes "") in
    stub'.captured_rem_cmd_req.cmdusr ≡ codes ""

sends_no_cmdusr : RemCmdEmptyCmdusrNotSet
unfolding do_rem_cmd make_request
sends_no_cmdusr = refl

-- `doRemCmdStrm` on the double, which has no responses unless a test puts some in.
abbrev strm : FakeStub → List Bytes → Bytes → Option (FakeStub × ℤ)
strm stub cmds cmdusr =
    do_rem_cmd_strm fake_stub (suc (length stub.strm_responses)) stub cmds (pos 0) cmdusr

abbrev RemCmdStrmSendsAllCommands : Type 0
RemCmdStrmSendsAllCommands =
    Returns
      (λ (stub, rc).
        (length stub.strm_written ≡ 3)
        × (map (λ q. q.cmd) stub.strm_written ≡ codes "cmd1" ∷ codes "cmd2" ∷ codes "cmd3" ∷ []))
      (strm make_client (codes "cmd1" ∷ codes "cmd2" ∷ codes "cmd3" ∷ []) (codes ""))

sends_all_commands : RemCmdStrmSendsAllCommands
unfolding do_rem_cmd_strm send_all read_loop make_request
sends_all_commands = (refl, refl)

abbrev RemCmdStrmSendsCrc32HashPerCommand : Type 0
RemCmdStrmSendsCrc32HashPerCommand =
    Returns
      (λ (stub, rc).
        (length stub.strm_written ≡ 1)
        × (map (λ q. q.hsh) stub.strm_written ≡ crc32_hex (codes "echo hello") ∷ []))
      (strm make_client (codes "echo hello" ∷ []) (codes ""))

sends_hashes : RemCmdStrmSendsCrc32HashPerCommand
unfolding do_rem_cmd_strm send_all read_loop make_request
sends_hashes = (refl, refl)

abbrev RemCmdStrmReturnsZeroOnSuccess : Type 0
RemCmdStrmReturnsZeroOnSuccess =
    Returns (λ (stub, rc). rc ≡ pos 0) (strm make_client (codes "cmd" ∷ []) (codes ""))

strm_succeeds : RemCmdStrmReturnsZeroOnSuccess
unfolding do_rem_cmd_strm send_all read_loop make_request
strm_succeeds = refl

abbrev RemCmdStrmReturnsOneOnRpcFailure : Type 0
RemCmdStrmReturnsOneOnRpcFailure =
    Returns (λ (stub, rc). rc ≡ pos 1)
      (strm (record make_client { strm_finish_status = down }) (codes "cmd" ∷ []) (codes ""))

strm_fails : RemCmdStrmReturnsOneOnRpcFailure
unfolding do_rem_cmd_strm send_all read_loop make_request
strm_fails = refl

abbrev RemCmdStrmEmptyCommandListReturnsZero : Type 0
RemCmdStrmEmptyCommandListReturnsZero =
    Returns (λ (stub, rc). rc ≡ pos 0) (strm make_client ([]) (codes ""))

strm_empty : RemCmdStrmEmptyCommandListReturnsZero
unfolding do_rem_cmd_strm send_all read_loop make_request
strm_empty = refl

abbrev RemCmdStrmForwardsCmdusr : Type 0
RemCmdStrmForwardsCmdusr =
    Returns
      (λ (stub, rc).
        (length stub.strm_written ≡ 2)
        × (map (λ q. q.cmdusr) stub.strm_written ≡ codes "alice" ∷ codes "alice" ∷ []))
      (strm make_client (codes "echo a" ∷ codes "echo b" ∷ []) (codes "alice"))

strm_cmdusr : RemCmdStrmForwardsCmdusr
unfolding do_rem_cmd_strm send_all read_loop make_request
strm_cmdusr = (refl, refl)

abbrev RemCmdStrmEmptyCmdusrNotSet : Type 0
RemCmdStrmEmptyCmdusrNotSet =
    Returns
      (λ (stub, rc).
        (length stub.strm_written ≡ 1) × (map (λ q. q.cmdusr) stub.strm_written ≡ codes "" ∷ []))
      (strm make_client (codes "echo hi" ∷ []) (codes ""))

strm_no_cmdusr : RemCmdStrmEmptyCmdusrNotSet
unfolding do_rem_cmd_strm send_all read_loop make_request
strm_no_cmdusr = (refl, refl)

abbrev RemCmdStrmAssigns1BasedTids : Type 0
RemCmdStrmAssigns1BasedTids =
    Returns
      (λ (stub, rc).
        (length stub.strm_written ≡ 3)
        × (map (λ q. q.tid) stub.strm_written ≡ pos 1 ∷ pos 2 ∷ pos 3 ∷ []))
      (strm make_client (codes "cmd1" ∷ codes "cmd2" ∷ codes "cmd3" ∷ []) (codes ""))

strm_tids : RemCmdStrmAssigns1BasedTids
unfolding do_rem_cmd_strm send_all read_loop make_request
strm_tids = (refl, refl)

abbrev RemCmdStrmSingleCommandHasTid1 : Type 0
RemCmdStrmSingleCommandHasTid1 =
    Returns
      (λ (stub, rc).
        (length stub.strm_written ≡ 1) × (map (λ q. q.tid) stub.strm_written ≡ pos 1 ∷ []))
      (strm make_client (codes "echo hello" ∷ []) (codes ""))

strm_first_tid : RemCmdStrmSingleCommandHasTid1
unfolding do_rem_cmd_strm send_all read_loop make_request
strm_first_tid = (refl, refl)
