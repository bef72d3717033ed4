-- ===== src/Suite/Tests.antt =====
-- Runs of the doubles of the repository's tests.
use rem_svc.Base.{List, [], ◌∷◌, some, true, false, codes, bytes_eq, bytes_lt, ◌≡◌, refl, arith}
use rem_svc.Base.Maps.{TextMap, emplace, lookup}
use rem_svc.Proto.{RemCmdMsg, is_ok}
use rem_svc.Service.{process_stream}
use rem_svc.Service.Interface.{process_on, process_on-process_stream}
use rem_svc.Auth.{auth_header, make_processor, const_time_equal, process}
use rem_svc.Auth.Lookup.{has_no_tokens}
use rem_svc.Samples.{policy, echo, idle, request}
use rem_svc.Suite.Fakes.{FakeCmdStream, fake_cmd_stream, fake_cmd_stream-Delivers, playback}
use rem_svc.Suite.Identities.{fake_auth_context}

-- Two messages that are run, and one that the denylist stops.
abbrev played : List RemCmdMsg
played = request (codes "ls a") ∷ request (codes "ls b") ∷ request (codes "rm c") ∷ []

process_on-process_stream_example :
    let (s', st, out) = process_stream policy echo idle played [] in
    (io' : FakeCmdStream) × (process_on policy echo fake_cmd_stream 4 idle (playback played)
      ≡ some (s', st, io'))
    × (io'.responses ≡ out)
process_on-process_stream_example =
    process_on-process_stream policy echo fake_cmd_stream (λ g. g.responses) played 4 idle
      (playback played) (omega arith)
      (fake_cmd_stream-Delivers policy echo played (playback played) refl)

abbrev tokens : TextMap
tokens = (codes "alice", codes "s3") ∷ (codes "bob", codes "t4") ∷ []

abbrev header : TextMap
header = (auth_header, codes "Bearer t4") ∷ []

asks : has_no_tokens tokens ≡ false
unfolding has_no_tokens
asks = refl

gets_through : is_ok (process (make_processor tokens) header fake_auth_context []).0 ≡ true
unfolding process make_processor emplace bytes_lt lookup bytes_eq const_time_equal
gets_through = refl
