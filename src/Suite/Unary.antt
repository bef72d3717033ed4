-- ===== src/Suite/Unary.antt =====
-- tst/unit/cpp/RemSvcServiceImplTest.cc: the tests of `RemCmd`, `Ping` and `GetStatus` that set no
-- access list.
use rem_svc.Base.{[], true, false, codes, ◌≡◌, refl, arith, bytes_eq, bytes_eq_iff}
use rem_svc.Base.Int.{pos, negsuc}
use rem_svc.Proto.{RemCmdMsg, invalid_argument, is_ok}
use rem_svc.Policy.{RegexEngine, make_policy, check_allowed}
use rem_svc.Crc.{crc32_hex}
use rem_svc.Service.{rem_cmd, truncate_output}
use rem_svc.Suite.Fakes.{make_fake_runner, cmd_spy, cmdtyp_spy, cmdusr_spy, command, fresh, call_on}

module _ (engine : RegexEngine) where
  abbrev RemCmdSetsOutputOnSuccess : Type 0
  RemCmdSetsOutputOnSuccess =
      let runner = make_fake_runner (codes "hello") (codes "") (pos 0) in
      let (svc, status, res) =
        call_on engine runner [] [] (fresh tt) (command (codes "echo hello")) in
      (is_ok status ≡ true) × (res.out ≡ codes "hello") × (res.err ≡ codes "") × (res.rc ≡ pos 0)

  sets_output : RemCmdSetsOutputOnSuccess
  unfolding rem_cmd make_policy check_allowed truncate_output
  sets_output = (refl, refl, refl, refl)

  abbrev RemCmdSetsNonZeroReturnCode : Type 0
  RemCmdSetsNonZeroReturnCode =
      let runner = make_fake_runner (codes "") (codes "not found") (pos 1) in
      let (svc, status, res) = call_on engine runner [] [] (fresh tt) (command (codes "bad_cmd")) in
      (is_ok status ≡ true) × (res.rc ≡ pos 1) × (res.err ≡ codes "not found")

  sets_return_code : RemCmdSetsNonZeroReturnCode
  unfolding rem_cmd make_policy check_allowed truncate_output
  sets_return_code = (refl, refl, refl)

  -- The world is `captured`.
  abbrev RemCmdForwardsCommandToRunner : Type 0
  RemCmdForwardsCommandToRunner =
      let (svc, status, res) = call_on engine cmd_spy [] [] (fresh []) (command (codes "dir /b")) in
      svc.world ≡ codes "dir /b"

  forwards_command : RemCmdForwardsCommandToRunner
  unfolding rem_cmd make_policy check_allowed
  forwards_command = refl

  abbrev RemCmdForwardsCmdTypToRunner : Type 0
  RemCmdForwardsCmdTypToRunner =
      let dir : RemCmdMsg = record (command (codes "dir")) { cmdtyp = pos 0 } in
      let get_date : RemCmdMsg = record (command (codes "Get-Date")) { cmdtyp = pos 1 } in
      let first = call_on engine cmdtyp_spy [] [] (fresh (negsuc 0)) dir in
      let second = call_on engine cmdtyp_spy [] [] first.0 get_date in
      (first.0.world ≡ pos 0) × (second.0.world ≡ pos 1)

  forwards_cmdtyp : RemCmdForwardsCmdTypToRunner
  unfolding rem_cmd make_policy check_allowed
  forwards_cmdtyp = (refl, refl)

  abbrev RemCmdForwardsCmdusr : Type 0
  RemCmdForwardsCmdusr =
      let req : RemCmdMsg = record (command (codes "echo hi")) { cmdusr = codes "deploy" } in
      let (svc, status, res) = call_on engine cmdusr_spy [] [] (fresh []) req in
      svc.world ≡ codes "deploy"

  forwards_cmdusr : RemCmdForwardsCmdusr
  unfolding rem_cmd make_policy check_allowed
  forwards_cmdusr = refl

  abbrev RemCmdForwardsEmptyCmdusr : Type 0
  RemCmdForwardsEmptyCmdusr =
      let req = command (codes "echo hi") in
      let (svc, status, res) = call_on engine cmdusr_spy [] [] (fresh (codes "unset")) req in
      svc.world ≡ codes ""

  forwards_empty_cmdusr : RemCmdForwardsEmptyCmdusr
  unfolding rem_cmd make_policy check_allowed
  forwards_empty_cmdusr = refl

  abbrev RemCmdEchoesTransactionId : Type 0
  RemCmdEchoesTransactionId =
      let runner = make_fake_runner (codes "") (codes "") (pos 0) in
      let req : RemCmdMsg = record (command (codes "echo")) { tid = pos 9876 } in
      let (svc, status, res) = call_on engine runner [] [] (fresh tt) req in res.tid ≡ pos 9876

  echoes_tid : RemCmdEchoesTransactionId
  unfolding rem_cmd make_policy check_allowed
  echoes_tid = refl

  abbrev RemCmdEchoesZeroTid : Type 0
  RemCmdEchoesZeroTid =
      let runner = make_fake_runner (codes "") (codes "") (pos 0) in
      let req : RemCmdMsg = record (command (codes "echo")) { tid = pos 0 } in
      let (svc, status, res) = call_on engine runner [] [] (fresh tt) req in res.tid ≡ pos 0

  echoes_zero_tid : RemCmdEchoesZeroTid
  unfolding rem_cmd make_policy check_allowed
  echoes_zero_tid = refl

  abbrev RemCmdEchoesHash : Type 0
  RemCmdEchoesHash =
      let runner = make_fake_runner (codes "") (codes "") (pos 0) in
      let cmd = codes "echo" in
      let req : RemCmdMsg = record (command cmd) { hsh = crc32_hex cmd } in
      let (svc, status, res) = call_on engine runner [] [] (fresh tt) req in
      (is_ok status ≡ true) × (res.hsh ≡ crc32_hex cmd)

  echoes_hash : RemCmdEchoesHash
  unfolding rem_cmd make_policy check_allowed
  echoes_hash = ground (arith, bytes_eq_iff (crc32_hex (codes "echo")) (crc32_hex (codes "echo")))

  abbrev RemCmdEchoesEmptyHash : Type 0
  RemCmdEchoesEmptyHash =
      let runner = make_fake_runner (codes "") (codes "") (pos 0) in
      let (svc, status, res) = call_on engine runner [] [] (fresh tt) (command (codes "echo")) in
      res.hsh ≡ codes ""

  echoes_empty_hash : RemCmdEchoesEmptyHash
  unfolding rem_cmd make_policy check_allowed
  echoes_empty_hash = refl

  abbrev RemCmdHashMismatchReturnsError : Type 0
  RemCmdHashMismatchReturnsError =
      let runner = make_fake_runner (codes "out") (codes "") (pos 0) in
      let req : RemCmdMsg = record (command (codes "dir /b")) { hsh = codes "00000000" } in
      let (svc, status, res) = call_on engine runner [] [] (fresh tt) req in
      (is_ok status ≡ false) × (status.code ≡ invalid_argument) × (res.out ≡ codes "")

  refuses_wrong_hash : RemCmdHashMismatchReturnsError
  unfolding rem_cmd make_policy check_allowed crc32_hex bytes_eq
  refuses_wrong_hash = (refl, refl, refl)

  abbrev RemCmdValidHashAllowsExecution : Type 0
  RemCmdValidHashAllowsExecution =
      let runner = make_fake_runner (codes "result") (codes "") (pos 0) in
      let cmd = codes "dir /b" in
      let req : RemCmdMsg = record (command cmd) { hsh = crc32_hex cmd } in
      let (svc, status, res) = call_on engine runner [] [] (fresh tt) req in
      (is_ok status ≡ true) × (res.rc ≡ pos 0) × (res.out ≡ codes "result")

  accepts_own_hash : RemCmdValidHashAllowsExecution
  unfolding rem_cmd make_policy check_allowed truncate_output
  accepts_own_hash =
      ground (arith, bytes_eq_iff (crc32_hex (codes "dir /b")) (crc32_hex (codes "dir /b")))

  abbrev RemCmdEmptyHashSkipsVerification : Type 0
  RemCmdEmptyHashSkipsVerification =
      let runner = make_fake_runner (codes "ok") (codes "") (pos 0) in
      let (svc, status, res) =
        call_on engine runner [] [] (fresh tt) (command (codes "anything")) in
      (is_ok status ≡ true) × (res.out ≡ codes "ok")

  accepts_no_hash : RemCmdEmptyHashSkipsVerification
  unfolding rem_cmd make_policy check_allowed truncate_output
  accepts_no_hash = (refl, refl)

  abbrev AllowlistEmptyPermitsAllCommands : Type 0
  AllowlistEmptyPermitsAllCommands =
      let runner = make_fake_runner (codes "ok") (codes "") (pos 0) in
      let (svc, status, res) =
        call_on engine runner [] [] (fresh tt) (command (codes "anything")) in
      (is_ok status ≡ true) × (res.out ≡ codes "ok")

  no_allowlist : AllowlistEmptyPermitsAllCommands
  unfolding rem_cmd make_policy check_allowed truncate_output
  no_allowlist = (refl, refl)
