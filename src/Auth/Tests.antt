-- ===== src/Auth/Tests.antt =====
-- Runs of the authentication of src/server/AuthInterceptor.cc.
use rem_svc.Base.{[], ◌∷◌, none, true, false, codes, bytes_eq, bytes_lt, ◌≡◌, refl}
use rem_svc.Base.Maps.{TextMap, lookup, emplace}
use rem_svc.Proto.{is_ok}
use rem_svc.Auth.{AuthContext, make_processor, process, const_time_equal, auth_header}
use rem_svc.Auth.Lookup.{has_no_tokens}
use rem_svc.Auth.Decision.{authenticate, process-authenticate}

abbrev two_users : TextMap
two_users = (codes "alice", codes "s3") ∷ (codes "bob", codes "t4") ∷ []

abbrev blank : AuthContext
blank = record { properties = []; peer_identity_property = none }

abbrev good_call : TextMap
good_call = (auth_header, codes "Bearer t4") ∷ []

process-authenticate_example :
    process (make_processor two_users) good_call blank []
    ≡ authenticate two_users good_call blank []
process-authenticate_example = process-authenticate two_users good_call blank []

asked : has_no_tokens two_users ≡ false
unfolding has_no_tokens
asked = refl

passes : is_ok (process (make_processor two_users) good_call blank []).0 ≡ true
unfolding process make_processor emplace bytes_lt lookup bytes_eq const_time_equal
passes = refl
