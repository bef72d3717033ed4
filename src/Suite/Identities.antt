-- ===== src/Suite/Identities.antt =====
-- tst/unit/cpp/AuthInterceptorTest.cc: the authentication on a double of `grpc::AuthContext`.
use rem_svc.Base.{
  List, [], ◌∷◌, ◌++◌, none, some, Bool, true, false, not, ◌&&◌, Bytes, codes, is_empty, bytes_eq,
  bytes_lt, bytes_eq_self, exists_in, if◌then◌else◌, ◌≡◌, refl, ap, ◌∙◌, arith,
}
use rem_svc.Base.Maps.{TextMap, emplace, lookup}
use rem_svc.Proto.{Status, unauthenticated, is_ok}
use rem_svc.Auth.{
  AuthContext, auth_header, identity_key, make_processor, is_enabled, const_time_equal, process,
}
use rem_svc.Auth.Lookup.{owner, has_no_tokens}
use rem_svc.Auth.Decision.{granted, process_sound}
use rem_svc.Suite.Fakes.{contains}

-- `FakeAuthContext`, which an `AuthContext` is the state of: `properties_` is a multimap, which keeps
-- the values of one key in the order in which they came.
abbrev pub fake_auth_context : AuthContext
fake_auth_context = record { properties = []; peer_identity_property = none }

unfoldable pub find_property_values : Bytes → List (Bytes × Bytes) → List Bytes
find_property_values name [] = []
find_property_values name ((key, value) ∷ rest) =
    let more = find_property_values name rest in if bytes_eq key name then value ∷ more else more

abbrev pub peer_identity_property_name : AuthContext → Bytes
peer_identity_property_name c = elim c.peer_identity_property [ none ↦ [] | some name ↦ name ]

abbrev pub get_peer_identity : AuthContext → List Bytes
get_peer_identity c = find_property_values (peer_identity_property_name c) c.properties

abbrev pub is_peer_authenticated : AuthContext → Bool
is_peer_authenticated c =
    not (is_empty (peer_identity_property_name c))
    && exists_in (λ p. bytes_eq p.0 (peer_identity_property_name c)) c.properties

find_property_values-append :
    (name : Bytes) (ps qs : List (Bytes × Bytes))
    → find_property_values name (ps ++ qs)
      ≡ find_property_values name ps ++ find_property_values name qs
unfolding find_property_values
find_property_values-append name [] qs = refl
find_property_values-append name ((key, value) ∷ ps) qs =
    ground (arith, find_property_values-append name ps qs)

has_key-append :
    (name value : Bytes) (ps : List (Bytes × Bytes))
    → exists_in (λ p. bytes_eq p.0 name) (ps ++ (name, value) ∷ []) ≡ true
unfolding exists_in
has_key-append name value [] = ground (arith, bytes_eq_self name)
has_key-append name value (p ∷ ps) = ground (arith, has_key-append name value ps)

-- After a call that gets through while some identity has a token, on a context that was not stamped
-- before, the peer counts as authenticated, and its identity is exactly one: the owner of the token.
pub process-get_peer_identity :
    (config auth_metadata : TextMap) (context : AuthContext) (consumed : List (Bytes × Bytes))
    → has_no_tokens config ≡ false
    → is_ok (process (make_processor config) auth_metadata context consumed).0 ≡ true
    → find_property_values identity_key context.properties ≡ []
    → let context' = (process (make_processor config) auth_metadata context consumed).1 in
      (is_peer_authenticated context' ≡ true)
      × (token : Bytes) × (identity : Bytes) × (owner token config ≡ some identity)
      × (get_peer_identity context' ≡ identity ∷ [])
unfolding granted find_property_values bytes_eq
process-get_peer_identity config auth_metadata context consumed asks passed clean =
    let (token, identity, header, owned, result) =
      process_sound config auth_metadata context consumed asks passed in
    rw result (
      has_key-append identity_key identity context.properties,
      token,
      identity,
      owned,
      find_property_values-append identity_key context.properties ((identity_key, identity) ∷ [])
          ∙ ap (λ (l : List Bytes). l ++ identity ∷ []) clean,
    )

-- `makeMetadata`
abbrev make_metadata : Bytes → Bytes → TextMap
make_metadata key value = (key, value) ∷ []

-- `runProcess`
abbrev run_process : TextMap → TextMap → Status
run_process tokens meta = (process tokens meta fake_auth_context []).0

-- `runProcessWithConsumed`
abbrev run_process_with_consumed :
    TextMap → TextMap → List (Bytes × Bytes) → Status × List (Bytes × Bytes)
run_process_with_consumed tokens meta consumed =
    let (status, context, consumed') = process tokens meta fake_auth_context consumed in
    (status, consumed')

-- `runProcessGetIdentity`
abbrev run_process_get_identity : TextMap → TextMap → Bytes
run_process_get_identity tokens meta =
    elim (find_property_values identity_key
      (process tokens meta fake_auth_context []).1.properties) [ [] ↦ [] | v ∷ vs ↦ v ]

abbrev EmptyMapDisablesAuth : Type 0
EmptyMapDisablesAuth = let tokens = make_processor [] in is_enabled tokens ≡ false

empty_disables : EmptyMapDisablesAuth
unfolding make_processor is_enabled
empty_disables = refl

abbrev EmptyMapPermitsCallWithNoHeader : Type 0
EmptyMapPermitsCallWithNoHeader =
    let tokens = make_processor [] in
    let meta : TextMap = [] in is_ok (run_process tokens meta) ≡ true

empty_permits : EmptyMapPermitsCallWithNoHeader
unfolding process make_processor
empty_permits = refl

abbrev EmptyMapPermitsCallWithAnyToken : Type 0
EmptyMapPermitsCallWithAnyToken =
    let tokens = make_processor [] in
    let meta = make_metadata auth_header (codes "Bearer totally-random-token") in
    is_ok (run_process tokens meta) ≡ true

empty_permits_any : EmptyMapPermitsCallWithAnyToken
unfolding process make_processor
empty_permits_any = refl

abbrev NonEmptyMapEnablesAuth : Type 0
NonEmptyMapEnablesAuth =
    let tokens = make_processor ((codes "airflow-prod", codes "tok123") ∷ []) in
    is_enabled tokens ≡ true

tokens_enable : NonEmptyMapEnablesAuth
unfolding make_processor is_enabled emplace
tokens_enable = refl

abbrev MissingAuthHeaderRejectsCall : Type 0
MissingAuthHeaderRejectsCall =
    let tokens = make_processor ((codes "airflow-prod", codes "tok123") ∷ []) in
    let meta : TextMap = [] in
    (is_ok (run_process tokens meta) ≡ false)
    × ((run_process tokens meta).code ≡ unauthenticated)
    × (contains (codes "missing") (run_process tokens meta).message ≡ true)

no_header : MissingAuthHeaderRejectsCall
unfolding process make_processor emplace bytes_lt lookup bytes_eq const_time_equal
no_header = (refl, refl, refl)

abbrev MalformedSchemeRejectsCall : Type 0
MalformedSchemeRejectsCall =
    let tokens = make_processor ((codes "airflow-prod", codes "tok123") ∷ []) in
    let meta = make_metadata auth_header (codes "Basic dXNlcjpwYXNz") in
    (is_ok (run_process tokens meta) ≡ false)
    × ((run_process tokens meta).code ≡ unauthenticated)
    × (contains (codes "Bearer") (run_process tokens meta).message ≡ true)

wrong_scheme : MalformedSchemeRejectsCall
unfolding process make_processor emplace bytes_lt lookup bytes_eq const_time_equal
wrong_scheme = (refl, refl, refl)

abbrev UnknownTokenRejectsCall : Type 0
UnknownTokenRejectsCall =
    let tokens = make_processor ((codes "airflow-prod", codes "tok123") ∷ []) in
    let meta = make_metadata auth_header (codes "Bearer wrong-token") in
    (is_ok (run_process tokens meta) ≡ false) × ((run_process tokens meta).code ≡ unauthenticated)

unknown_token : UnknownTokenRejectsCall
unfolding process make_processor emplace bytes_lt lookup bytes_eq const_time_equal
unknown_token = (refl, refl)

abbrev EmptyBearerTokenRejectsCall : Type 0
EmptyBearerTokenRejectsCall =
    let tokens = make_processor ((codes "airflow-prod", codes "tok123") ∷ []) in
    let meta = make_metadata auth_header (codes "Bearer ") in
    is_ok (run_process tokens meta) ≡ false

empty_token : EmptyBearerTokenRejectsCall
unfolding process make_processor emplace bytes_lt lookup bytes_eq const_time_equal
empty_token = refl

abbrev ValidTokenPermitsCall : Type 0
ValidTokenPermitsCall =
    let tokens = make_processor ((codes "airflow-prod", codes "tok123") ∷ []) in
    let meta = make_metadata auth_header (codes "Bearer tok123") in
    is_ok (run_process tokens meta) ≡ true

valid_token : ValidTokenPermitsCall
unfolding process make_processor emplace bytes_lt lookup bytes_eq const_time_equal
valid_token = refl

abbrev ValidTokenStampsIdentityOnContext : Type 0
ValidTokenStampsIdentityOnContext =
    let tokens = make_processor ((codes "airflow-prod", codes "tok123") ∷ []) in
    let meta = make_metadata auth_header (codes "Bearer tok123") in
    run_process_get_identity tokens meta ≡ codes "airflow-prod"

stamps_identity : ValidTokenStampsIdentityOnContext
unfolding process make_processor emplace bytes_lt lookup bytes_eq const_time_equal
    find_property_values
stamps_identity = refl

abbrev ValidTokenConsumesAuthHeader : Type 0
ValidTokenConsumesAuthHeader =
    let tokens = make_processor ((codes "airflow-prod", codes "tok123") ∷ []) in
    let meta = make_metadata auth_header (codes "Bearer tok123") in
    exists_in (λ p. bytes_eq p.0 auth_header) (run_process_with_consumed tokens meta []).1 ≡ true

consumes_header : ValidTokenConsumesAuthHeader
unfolding process make_processor emplace bytes_lt lookup bytes_eq const_time_equal exists_in
consumes_header = refl

abbrev MultipleTokensStagingMatchesStagingIdentity : Type 0
MultipleTokensStagingMatchesStagingIdentity =
    let tokens = make_processor (
      (codes "airflow-prod", codes "prod-token")
      ∷ (codes "airflow-staging", codes "staging-token")
      ∷ (codes "dev-semih", codes "dev-token")
      ∷ []) in
    let meta = make_metadata auth_header (codes "Bearer staging-token") in
    (is_ok (run_process tokens meta) ≡ true)
    × (run_process_get_identity tokens meta ≡ codes "airflow-staging")

staging_identity : MultipleTokensStagingMatchesStagingIdentity
unfolding process make_processor emplace bytes_lt lookup bytes_eq const_time_equal
    find_property_values
staging_identity = (refl, refl)

abbrev MultipleTokensWrongTokenStillRejected : Type 0
MultipleTokensWrongTokenStillRejected =
    let tokens = make_processor (
      (codes "airflow-prod", codes "prod-token")
      ∷ (codes "airflow-staging", codes "staging-token")
      ∷ []) in
    let meta = make_metadata auth_header (codes "Bearer not-a-real-token") in
    is_ok (run_process tokens meta) ≡ false

wrong_among_many : MultipleTokensWrongTokenStillRejected
unfolding process make_processor emplace bytes_lt lookup bytes_eq const_time_equal
wrong_among_many = refl

abbrev AllTokensIteratedEvenAfterFirstMatch : Type 0
AllTokensIteratedEvenAfterFirstMatch =
    let tokens = make_processor (
      (codes "id-a", codes "token-a")
      ∷ (codes "id-b", codes "token-b")
      ∷ (codes "id-c", codes "token-c")
      ∷ []) in
    let meta = make_metadata auth_header (codes "Bearer token-a") in
    (is_ok (run_process tokens meta) ≡ true) × (run_process_get_identity tokens meta ≡ codes "id-a")

first_of_three : AllTokensIteratedEvenAfterFirstMatch
unfolding process make_processor emplace bytes_lt lookup bytes_eq const_time_equal
    find_property_values
first_of_three = (refl, refl)

abbrev EmptyTokenValueIgnoredDuringConstruction : Type 0
EmptyTokenValueIgnoredDuringConstruction =
    let tokens = make_processor ((codes "bad-identity", codes "") ∷ []) in is_enabled tokens ≡ false

empty_value : EmptyTokenValueIgnoredDuringConstruction
unfolding make_processor is_enabled
empty_value = refl

abbrev OnlyNonEmptyTokensStored : Type 0
OnlyNonEmptyTokensStored =
    let tokens =
      make_processor ((codes "invalid", codes "") ∷ (codes "valid", codes "real-token") ∷ []) in
    let meta = make_metadata auth_header (codes "Bearer real-token") in
    (is_enabled tokens ≡ true) × (is_ok (run_process tokens meta) ≡ true)

nonempty_only : OnlyNonEmptyTokensStored
unfolding process make_processor emplace bytes_lt lookup bytes_eq const_time_equal is_enabled
nonempty_only = (refl, refl)
