-- ===== src/Suite/Streamed.antt =====
-- tst/unit/cpp/RemSvcServiceImplTest.cc: the tests of `processStream` that set no access list.
use rem_svc.Base.{
  ℕ, ◌+◌, [], ◌∷◌, ◌++◌, true, false, codes, length, map, bytes_eq, bytes_eq_iff, ◌≡◌, refl, arith,
}
use rem_svc.Base.Int.{pos, nat_text}
use rem_svc.Proto.{RemCmdMsg, invalid_argument, is_ok}
use rem_svc.Policy.{RegexEngine, make_policy, check_allowed}
use rem_svc.Crc.{crc32_hex}
use rem_svc.Service.{CmdRunner, truncate_output}
use rem_svc.Service.Interface.{process_on}
use rem_svc.Suite.Fakes.{
  make_fake_runner, cmdusr_spy, call_counter, command, make_req, Returns, stream_on,
}

-- The runner that returns `out_` and the number of the call; the world counts the calls.
abbrev numbering : CmdRunner ℕ
numbering call cmd cmdtyp cmdusr =
    (call + 1, record { rc = pos 0; out = codes "out_" ++ nat_text (call + 1); err = codes "" })

module _ (engine : RegexEngine) where
  abbrev RemCmdStrmEmptyStreamReturnsOk : Type 0
  RemCmdStrmEmptyStreamReturnsOk =
      let runner = make_fake_runner (codes "") (codes "") (pos 0) in
      Returns (λ (svc, status, stream). (is_ok status ≡ true) × (stream.responses ≡ []))
        (stream_on engine runner [] [] tt [])

  no_requests : RemCmdStrmEmptyStreamReturnsOk
  unfolding process_on make_policy check_allowed truncate_output
  no_requests = (refl, refl)

  abbrev RemCmdStrmSingleCommand : Type 0
  RemCmdStrmSingleCommand =
      let runner = make_fake_runner (codes "hello") (codes "") (pos 0) in
      Returns
        (λ (svc, status, stream).
          (is_ok status ≡ true)
          × (length stream.responses ≡ 1)
          × (map (λ r. r.out) stream.responses ≡ codes "hello" ∷ [])
          × (map (λ r. r.rc) stream.responses ≡ pos 0 ∷ []))
        (stream_on engine runner [] [] tt (make_req (codes "echo hello") (pos 0) [] ∷ []))

  one_request : RemCmdStrmSingleCommand
  unfolding process_on make_policy check_allowed truncate_output
  one_request = (refl, refl, refl, refl)

  abbrev RemCmdStrmMultipleCommandsInOrder : Type 0
  RemCmdStrmMultipleCommandsInOrder =
      let reqs =
        make_req (codes "cmd1") (pos 0) []
        ∷ make_req (codes "cmd2") (pos 0) []
        ∷ make_req (codes "cmd3") (pos 0) []
        ∷ [] in
      Returns
        (λ (svc, status, stream).
          (is_ok status ≡ true)
          × (length stream.responses ≡ 3)
          × (map (λ r. r.out) stream.responses
              ≡ codes "out_1" ∷ codes "out_2" ∷ codes "out_3" ∷ []))
        (stream_on engine numbering [] [] 0 reqs)

  three_requests : RemCmdStrmMultipleCommandsInOrder
  unfolding process_on make_policy check_allowed truncate_output nat_text
  three_requests = (refl, refl, refl)

  abbrev RemCmdStrmEchoesTidPerMessage : Type 0
  RemCmdStrmEchoesTidPerMessage =
      let runner = make_fake_runner (codes "") (codes "") (pos 0) in
      Returns
        (λ (svc, status, stream).
          (length stream.responses ≡ 2)
          × (map (λ r. r.tid) stream.responses ≡ pos 10 ∷ pos 20 ∷ []))
        (stream_on engine runner [] [] tt
          (make_req (codes "a") (pos 10) [] ∷ make_req (codes "b") (pos 20) [] ∷ []))

  tids : RemCmdStrmEchoesTidPerMessage
  unfolding process_on make_policy check_allowed truncate_output
  tids = (refl, refl)

  abbrev RemCmdStrmEchoesHashPerMessage : Type 0
  RemCmdStrmEchoesHashPerMessage =
      let runner = make_fake_runner (codes "") (codes "") (pos 0) in
      let cmd = codes "dir" in
      Returns
        (λ (svc, status, stream).
          (length stream.responses ≡ 1) × (map (λ r. r.hsh) stream.responses ≡ crc32_hex cmd ∷ []))
        (stream_on engine runner [] [] tt (make_req cmd (pos 0) (crc32_hex cmd) ∷ []))

  hashes : RemCmdStrmEchoesHashPerMessage
  unfolding process_on make_policy check_allowed truncate_output
  hashes = ground (arith, bytes_eq_iff (crc32_hex (codes "dir")) (crc32_hex (codes "dir")))

  abbrev RemCmdStrmHashMismatchAbortsStream : Type 0
  RemCmdStrmHashMismatchAbortsStream =
      Returns
        (λ (svc, status, stream).
          (is_ok status ≡ false)
          × (status.code ≡ invalid_argument)
          × (svc.world ≡ 0)
          × (stream.responses ≡ []))
        (stream_on engine call_counter [] [] 0 (
          make_req (codes "cmd1") (pos 0) (codes "00000000")
          ∷ make_req (codes "cmd2") (pos 0) []
          ∷ []))

  wrong_hash_in_stream : RemCmdStrmHashMismatchAbortsStream
  unfolding process_on make_policy check_allowed crc32_hex bytes_eq
  wrong_hash_in_stream = (refl, refl, refl, refl)

  abbrev RemCmdStrmValidHashAllowsExecution : Type 0
  RemCmdStrmValidHashAllowsExecution =
      let runner = make_fake_runner (codes "ok") (codes "") (pos 0) in
      let cmd = codes "dir /b" in
      Returns
        (λ (svc, status, stream).
          (is_ok status ≡ true)
          × (length stream.responses ≡ 1)
          × (map (λ r. r.out) stream.responses ≡ codes "ok" ∷ []))
        (stream_on engine runner [] [] tt (make_req cmd (pos 0) (crc32_hex cmd) ∷ []))

  own_hash_in_stream : RemCmdStrmValidHashAllowsExecution
  unfolding process_on make_policy check_allowed truncate_output
  own_hash_in_stream =
      ground (arith, bytes_eq_iff (crc32_hex (codes "dir /b")) (crc32_hex (codes "dir /b")))

  abbrev RemCmdStrmNonZeroReturnCode : Type 0
  RemCmdStrmNonZeroReturnCode =
      let runner = make_fake_runner (codes "") (codes "bad") (pos 42) in
      Returns
        (λ (svc, status, stream).
          (is_ok status ≡ true)
          × (length stream.responses ≡ 1)
          × (map (λ r. r.rc) stream.responses ≡ pos 42 ∷ [])
          × (map (λ r. r.err) stream.responses ≡ codes "bad" ∷ []))
        (stream_on engine runner [] [] tt (make_req (codes "bad_cmd") (pos 0) [] ∷ []))

  return_code_in_stream : RemCmdStrmNonZeroReturnCode
  unfolding process_on make_policy check_allowed truncate_output
  return_code_in_stream = (refl, refl, refl, refl)

  abbrev RemCmdStrmForwardsCmdusr : Type 0
  RemCmdStrmForwardsCmdusr =
      let req : RemCmdMsg = record (command (codes "echo hi")) { cmdusr = codes "alice" } in
      Returns (λ (svc, status, stream). svc.world ≡ codes "alice")
        (stream_on engine cmdusr_spy [] [] (codes "") (req ∷ []))

  cmdusr_in_stream : RemCmdStrmForwardsCmdusr
  unfolding process_on make_policy check_allowed truncate_output
  cmdusr_in_stream = refl

  abbrev RemCmdStrmEmptyCmdusrForwarded : Type 0
  RemCmdStrmEmptyCmdusrForwarded =
      Returns (λ (svc, status, stream). svc.world ≡ codes "")
        (stream_on engine cmdusr_spy [] [] (codes "unset")
          (make_req (codes "echo hi") (pos 0) [] ∷ []))

  empty_cmdusr_in_stream : RemCmdStrmEmptyCmdusrForwarded
  unfolding process_on make_policy check_allowed truncate_output
  empty_cmdusr_in_stream = refl
