-- ===== src/Suite/Reports.antt =====
-- tst/unit/cpp/RemSvcServiceImplTest.cc: the tests of `Ping` and `GetStatus`, of the limit on the
-- output, and of `crc32Hex`.
use rem_svc.Base.{
  ℕ, ◌+◌, ◌-◌, ◌/◌, lt→ltb, ◌<◌, [], ◌∷◌, ◌++◌, true, false, All, Bytes, codes, length,
  length-append, length-take, take, ◌≡◌, refl, arith,
}
use rem_svc.Base.Int.{pos, nat_text, int_text}
use rem_svc.Proto.{PingMsg, is_ok}
use rem_svc.Policy.{RegexEngine, make_policy, check_allowed}
use rem_svc.Crc.{crc32_hex}
use rem_svc.Crc.Hex.{IsHexDigit, crc32_hex-shape}
use rem_svc.Service.{
  max_output_bytes, truncation_marker, truncate_output, rem_cmd, ping, get_status,
}
use rem_svc.Suite.Fakes.{
  contains, contains-append, copies, length-copies, make_fake_runner, command, fresh, call_on,
}

-- A message of which only the sequence number is set.
abbrev numbered : ℕ → PingMsg
numbered n = record { seq = pos n; time = pos 0; payload = [] }

abbrev PingEchoesSeqId : Type 0
PingEchoesSeqId =
    let (status, pong) = ping (numbered 42) in (is_ok status ≡ true) × (pong.seq ≡ pos 42)

echoes_seq : PingEchoesSeqId
unfolding ping
echoes_seq = (refl, refl)

abbrev PingEchoesZeroSeq : Type 0
PingEchoesZeroSeq =
    let (status, pong) = ping (numbered 0) in (is_ok status ≡ true) × (pong.seq ≡ pos 0)

echoes_zero_seq : PingEchoesZeroSeq
unfolding ping
echoes_zero_seq = (refl, refl)

abbrev PingEchoesTime : Type 0
PingEchoesTime =
    let (status, pong) = ping (record (numbered 1) { time = pos 1234567890 }) in
    (is_ok status ≡ true) × (pong.time ≡ pos 1234567890)

echoes_time : PingEchoesTime
unfolding ping
echoes_time = (refl, refl)

abbrev PingEchoesData : Type 0
PingEchoesData =
    let (status, pong) = ping (record (numbered 2) { payload = codes "hello" }) in
    (is_ok status ≡ true) × (pong.payload ≡ codes "hello")

echoes_data : PingEchoesData
unfolding ping
echoes_data = (refl, refl)

-- The times of the two clock readings are left open.
module _ (start_time now : ℕ) where
  abbrev GetStatusReturnsOk : Type 0
  GetStatusReturnsOk =
      let (status, res) = get_status start_time now (fresh tt) in
      (is_ok status ≡ true) × (res.rc ≡ pos 0)

  status_is_ok : GetStatusReturnsOk
  unfolding get_status
  status_is_ok = (refl, refl)

  abbrev GetStatusMsgContainsStateOk : Type 0
  GetStatusMsgContainsStateOk =
      let (status, res) = get_status start_time now (fresh tt) in
      contains (codes "state=OK") res.msg ≡ true

  shows_state : GetStatusMsgContainsStateOk
  unfolding get_status
  shows_state = refl

  abbrev GetStatusMsgContainsUptime : Type 0
  GetStatusMsgContainsUptime =
      let (status, res) = get_status start_time now (fresh tt) in
      contains (codes "uptime=") res.msg ≡ true

  shows_uptime : GetStatusMsgContainsUptime
  unfolding get_status
  shows_uptime = refl

  abbrev GetStatusMsgContainsCommandCount : RegexEngine → Type 0
  GetStatusMsgContainsCommandCount engine =
      let runner = make_fake_runner (codes "") (codes "") (pos 0) in
      let first = call_on engine runner [] [] (fresh tt) (command (codes "a")) in
      let second = call_on engine runner [] [] first.0 (command (codes "b")) in
      let (status, res) = get_status start_time now second.0 in
      contains (codes "commands=2") res.msg ≡ true

  shows_count : (engine : RegexEngine) → GetStatusMsgContainsCommandCount engine
  unfolding get_status rem_cmd make_policy check_allowed int_text
  shows_count engine =
      contains-append (codes "commands=2") (codes "state=OK uptime=")
        (nat_text ((now - start_time) / 1000000000) ++ codes "s commands=2")
        (contains-append (codes "commands=2") (nat_text ((now - start_time) / 1000000000))
          (codes "s commands=2") refl)

truncate_output_long :
    (s : Bytes)
    → max_output_bytes < length s
    → truncate_output s ≡ take max_output_bytes s ++ truncation_marker
unfolding truncate_output
truncate_output_long s h = rw (lt→ltb max_output_bytes (length s) h) refl

-- Text that is too long ends in the marker, which is found in it.
truncated :
    (c : ℕ)
    → let s = truncate_output (copies (max_output_bytes + 100) c) in
      (length s ≡ max_output_bytes + length truncation_marker)
      × (contains truncation_marker s ≡ true)
      × (contains (1 ∷ []) s ≡ true)
truncated c =
    let big = copies (max_output_bytes + 100) c in
    let size = length-copies (max_output_bytes + 100) c in
    rw (truncate_output_long big (omega (arith, size))) (
      omega (
        arith,
        size,
        length-append (take max_output_bytes big) truncation_marker,
        length-take max_output_bytes big,
      ),
      contains-append truncation_marker (take max_output_bytes big) truncation_marker refl,
      contains-append (1 ∷ []) (take max_output_bytes big) truncation_marker refl,
    )

module _ (engine : RegexEngine) where
  abbrev OutputTruncatedAt256Kb : Type 0
  OutputTruncatedAt256Kb =
      let runner = make_fake_runner (copies (max_output_bytes + 100) b'x') (codes "") (pos 0) in
      let (svc, status, res) = call_on engine runner [] [] (fresh tt) (command (codes "flood")) in
      (length res.out ≡ max_output_bytes + length truncation_marker)
      × (contains truncation_marker res.out ≡ true)
      × (contains (1 ∷ []) res.out ≡ true)

  truncates_output : OutputTruncatedAt256Kb
  unfolding rem_cmd make_policy check_allowed
  truncates_output = truncated b'x'

  abbrev ErrorTruncatedAt256Kb : Type 0
  ErrorTruncatedAt256Kb =
      let runner = make_fake_runner (codes "") (copies (max_output_bytes + 100) b'e') (pos 1) in
      let (svc, status, res) = call_on engine runner [] [] (fresh tt) (command (codes "flood")) in
      (length res.err ≡ max_output_bytes + length truncation_marker)
      × (contains truncation_marker res.err ≡ true)

  truncates_error : ErrorTruncatedAt256Kb
  unfolding rem_cmd make_policy check_allowed
  truncates_error = let (size, found, soh) = truncated b'e' in (size, found)

  abbrev OutputBelowLimitNotTruncated : Type 0
  OutputBelowLimitNotTruncated =
      let small = copies 100 b'x' in
      let runner = make_fake_runner small (codes "") (pos 0) in
      let (svc, status, res) = call_on engine runner [] [] (fresh tt) (command (codes "small")) in
      (res.out ≡ small) × (contains (1 ∷ []) res.out ≡ false)

  keeps_output : OutputBelowLimitNotTruncated
  unfolding rem_cmd make_policy check_allowed truncate_output copies
  keeps_output = (refl, refl)

-- `front()` and `back()`, with 0 for an empty text.
front : Bytes → ℕ
front [] = 0
front (c ∷ s) = c

back : Bytes → ℕ
back [] = 0
back (c ∷ []) = c
back (c ∷ d ∷ s) = back (d ∷ s)

abbrev TruncationMarkerContainsSentinelBytes : Type 0
TruncationMarkerContainsSentinelBytes =
    (front truncation_marker ≡ 10)
    × (back truncation_marker ≡ 10)
    × (contains (1 ∷ []) truncation_marker ≡ true)

marker_bytes : TruncationMarkerContainsSentinelBytes
unfolding front back
marker_bytes = (refl, refl, refl)

abbrev Crc32HexIsEightLowercaseHexDigits : Type 0
Crc32HexIsEightLowercaseHexDigits =
    let h = crc32_hex (codes "hello world") in (length h ≡ 8) × All IsHexDigit h

eight_digits : Crc32HexIsEightLowercaseHexDigits
eight_digits = crc32_hex-shape (codes "hello world")

abbrev Crc32HexKnownValue : Type 0
Crc32HexKnownValue = crc32_hex (codes "123456789") ≡ codes "cbf43926"

known_value : Crc32HexKnownValue
unfolding crc32_hex
known_value = refl
