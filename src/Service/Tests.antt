-- ===== src/Service/Tests.antt =====
-- Runs of the handlers of src/server/RemSvcServiceImpl.cc.
use rem_svc.Base.{
  zero, suc, true, Bytes, drop, leb, ◌||◌, ℕ, ◌+◌, ◌<◌, ◌≤◌, List, [], ◌∷◌, ◌++◌, false, IsBytes,
  codes, length, take, ◌≡◌, ◌≢◌, ◌↔◌, refl, arith,
}
use rem_svc.Proto.{RemCmdMsg, empty_res, is_ok}
use rem_svc.Crc.{crc32_hex}
use rem_svc.Policy.{check_allowed}
use rem_svc.Service.{max_output_bytes, truncation_marker, truncate_output, rem_cmd, process_stream}
use rem_svc.Service.Execute.{refusal}
use rem_svc.Service.Stream.{accepted, ending, run_all, process_stream-run_all}
use rem_svc.Service.Integrity.{rem_cmd_changed}
use rem_svc.Service.Output.{truncate_output_lem}
use rem_svc.Service.Encoding.{is_utf8, is_boundary, is_utf8-truncate_output}
use rem_svc.Suite.Fakes.{copies}
use rem_svc.Samples.{policy, echo, idle, request}

-- Two messages that are run, and one that the denylist stops.
abbrev messages : List RemCmdMsg
messages = request (codes "ls a") ∷ request (codes "ls b") ∷ request (codes "rm c") ∷ []

stream_run :
    (process_stream policy echo idle messages []).0.world ≡ codes "ls a" ∷ codes "ls b" ∷ []
unfolding process_stream check_allowed
stream_run = refl

process_stream-run_all_example : process_stream policy echo idle messages [] ≡ (
    let (s', more) = run_all echo idle (accepted policy messages) in
    (s', ending policy messages, [] ++ more))
process_stream-run_all_example = process_stream-run_all policy echo idle messages []

one_byte : (c : ℕ) → c < 256 → IsBytes (c ∷ [])
one_byte c h = (h, tt)

a_is_not_b : codes "a" ≢ codes "b"
a_is_not_b h = ground arith

-- The hash of `a` on the command `b`.
abbrev tampered : RemCmdMsg
tampered = record (request (codes "b")) { hsh = crc32_hex (codes "a") }

rem_cmd_changed_example :
    (rem_cmd policy echo idle tampered empty_res ≡ (idle, refusal policy tampered, empty_res))
    × (is_ok (refusal policy tampered) ≡ false)
rem_cmd_changed_example =
    rem_cmd_changed policy echo [] (codes "a") (codes "b") [] tt (one_byte b'a' (omega arith))
      (one_byte b'b' (omega arith)) tt refl (omega arith) a_is_not_b tampered refl refl idle
      empty_res

truncate_output_lem_example :
    (length (truncate_output (codes "out")) ≤ max_output_bytes + length truncation_marker)
    × (take max_output_bytes (truncate_output (codes "out")) ≡ take max_output_bytes (codes "out"))
    × ((max_output_bytes < length (truncate_output (codes "out")))
        ↔ (max_output_bytes < length (codes "out")))
truncate_output_lem_example = truncate_output_lem (codes "out")

-- An output that is a hundred bytes too long.
abbrev flood : Bytes
flood = copies (max_output_bytes + 100) b'x'

is_utf8-copies : (n : ℕ) → is_utf8 (copies n b'x') ≡ true
unfolding is_utf8 copies
is_utf8-copies zero = refl
is_utf8-copies (suc n) = is_utf8-copies n

is_utf8-truncate_output_example :
    is_utf8 (truncate_output flood)
    ≡ (leb (length flood) max_output_bytes || is_boundary (drop max_output_bytes flood))
is_utf8-truncate_output_example =
    is_utf8-truncate_output flood (is_utf8-copies (max_output_bytes + 100))
