-- ===== src/Auth.antt =====
-- src/server/AuthInterceptor.{hh,cc}: `BearerTokenAuthProcessor`. Metadata are the pairs in the
-- order of the multimap; the first with a key is the one that `find` returns.
pub mod Compare
pub mod Lookup
pub mod Decision
mod Tests
use Prim.Native.Nat.{bit_or}
use rem_svc.Base.{
  ℕ, List, [], ◌∷◌, ◌++◌, Option, none, some, Bool, false, not, ◌||◌, Bytes, codes, is_empty,
  length, take, drop, bytes_eq, bit_xor, ltb, ◌==◌, if◌then◌else◌,
}
use rem_svc.Base.Maps.{TextMap, emplace, lookup}
use rem_svc.Proto.{Status, status_ok, unauthenticated}

-- `kAuthHeader`, `kBearerPrefix`, `kIdentityKey`
abbrev pub auth_header : Bytes
auth_header = codes "authorization"

abbrev pub bearer_prefix : Bytes
bearer_prefix = codes "Bearer "

abbrev pub identity_key : Bytes
identity_key = codes "x-remsvc-identity"

-- The entries added to `grpc::AuthContext`, and the name of the peer's identity property.
pub record AuthContext : Type 0 where
  pub properties : List (Bytes × Bytes)
  pub peer_identity_property : Option Bytes

-- The loop of the constructor over the identities, which keeps token → identity.
unfoldable pub index_tokens : TextMap → TextMap → TextMap
index_tokens [] tokens = tokens
index_tokens ((identity, token) ∷ rest) tokens =
    index_tokens rest (if is_empty token then tokens else emplace token identity tokens)

unfoldable pub make_processor : TextMap → TextMap
unfolding index_tokens
make_processor identity_to_token = index_tokens identity_to_token []

-- `IsEnabled`
unfoldable pub is_enabled : TextMap → Bool
is_enabled tokens = not (is_empty tokens)

-- The loop of `constTimeEqual`, which looks at every pair.
pub diff_loop : Bytes → Bytes → ℕ → ℕ
diff_loop [] bs diff = diff
diff_loop (a ∷ as') [] diff = diff
diff_loop (a ∷ as') (b ∷ bs) diff = diff_loop as' bs (bit_or diff (bit_xor a b))

unfoldable pub const_time_equal : Bytes → Bytes → Bool
unfolding diff_loop
const_time_equal a b = if not (length a == length b) then false else diff_loop a b 0 == 0

-- The loop over all stored tokens: the last match is kept.
pub find_identity : Bytes → TextMap → Option Bytes → Option Bytes
find_identity token [] identity = identity
find_identity token ((stored_token, stored_identity) ∷ rest) identity =
    find_identity token rest
      (if const_time_equal token stored_token then some stored_identity else identity)

abbrev pub unauthenticated_with : Bytes → Status
unauthenticated_with message = record { code = unauthenticated; message = message }

abbrev pub missing_text : Bytes
missing_text = codes "missing Authorization header"

abbrev pub scheme_text : Bytes
scheme_text = codes "Authorization header must use 'Bearer' scheme"

abbrev pub invalid_text : Bytes
invalid_text = codes "invalid bearer token"

-- What one call leaves: its status, the context, the metadata marked as consumed.
abbrev pub Processed : Type 0
Processed = Status × AuthContext × List (Bytes × Bytes)

-- Steps 3 and 4 of `Process`, for the header's value and the token in it.
unfoldable pub admit : Bytes → Option Bytes → AuthContext → List (Bytes × Bytes) → Processed
admit value none context consumed = (unauthenticated_with invalid_text, context, consumed)
admit value (some identity) context consumed = (
  status_ok,
  record {
    properties = context.properties ++ (identity_key, identity) ∷ [];
    peer_identity_property = some identity_key;
  },
  consumed ++ (auth_header, value) ∷ [],
)

-- Step 2: `value` is that of the header.
pub check_scheme : TextMap → Bytes → AuthContext → List (Bytes × Bytes) → Processed
unfolding admit find_identity
check_scheme tokens value context consumed =
    if ltb (length value) (length bearer_prefix)
      || not (bytes_eq (take (length bearer_prefix) value) bearer_prefix)
    then (unauthenticated_with scheme_text, context, consumed)
    else admit value (find_identity (drop (length bearer_prefix) value) tokens none) context
        consumed

pub check_header : TextMap → Option Bytes → AuthContext → List (Bytes × Bytes) → Processed
unfolding check_scheme
check_header tokens none context consumed = (unauthenticated_with missing_text, context, consumed)
check_header tokens (some value) context consumed = check_scheme tokens value context consumed

-- `Process`
unfoldable pub process : TextMap → TextMap → AuthContext → List (Bytes × Bytes) → Processed
unfolding check_header
process tokens auth_metadata context consumed =
    if is_empty tokens
    then (status_ok, context, consumed)
    else check_header tokens (lookup auth_header auth_metadata) context consumed
