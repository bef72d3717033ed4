-- ===== src/Auth/Decision.antt =====
-- `Process` of src/server/AuthInterceptor.cc against the configuration's map of identities.
use mathlib.Core.Bool.{false≢true}
use rem_svc.Base.{
  List, [], ◌∷◌, ◌++◌, Option, none, some, Bool, true, false, not, ◌||◌, Bytes, length, take, drop,
  bytes_eq, ltb, if◌then◌else◌, ◌≡◌, refl, sym, ap, ◌∙◌, arith, Bool-cases, Option-cases, inl, inr,
}
use rem_svc.Base.Maps.{TextMap, lookup}
use rem_svc.Proto.{status_ok, is_ok}
use rem_svc.Auth.{
  AuthContext, Processed, make_processor, auth_header, bearer_prefix, identity_key,
  unauthenticated_with, missing_text, scheme_text, invalid_text, admit, check_scheme, check_header,
  process,
}
use rem_svc.Auth.Lookup.{owner, has_no_tokens, find_identity-owner, is_empty-make_processor}

-- The text behind a prefix, or none.
unfoldable pub behind : Bytes → Bytes → Option Bytes
behind [] value = some value
behind (p ∷ prefix) [] = none
behind (p ∷ prefix) (v ∷ value) = if bytes_eq (p ∷ []) (v ∷ []) then behind prefix value else none

abbrev scheme_fails : Bytes → Bytes → Bool
scheme_fails prefix value =
    ltb (length value) (length prefix) || not (bytes_eq (take (length prefix) value) prefix)

scheme_behind :
    (prefix value : Bytes)
    → behind prefix value
      ≡ (if scheme_fails prefix value then none else some (drop (length prefix) value))
unfolding behind bytes_eq
scheme_behind [] value = ground arith
scheme_behind (p ∷ prefix) [] = ground arith
scheme_behind (p ∷ prefix) (v ∷ value) = ground (arith, scheme_behind prefix value)

behind-some : (prefix value rest : Bytes) → behind prefix value ≡ some rest → value ≡ prefix ++ rest
unfolding behind bytes_eq
behind-some [] value rest h = ground arith
behind-some (p ∷ prefix) [] rest h = cc
behind-some (p ∷ prefix) (v ∷ value) rest h = ground (arith, behind-some prefix value rest)

-- What the header's value and the identity that owns its token must lead to: an identity is stamped
-- on the context, and the header is taken out of what the call goes on with.
unfoldable pub granted : Bytes → Option Bytes → AuthContext → List (Bytes × Bytes) → Processed
granted value identity context consumed = elim identity [
  | none ↦ (unauthenticated_with invalid_text, context, consumed)
  | some name ↦ (
    status_ok,
    record {
      properties = context.properties ++ (identity_key, name) ∷ [];
      peer_identity_property = some identity_key;
    },
    consumed ++ (auth_header, value) ∷ [],
  )
]

admit-granted :
    (value : Bytes) (identity : Option Bytes) (context : AuthContext)
    (consumed : List (Bytes × Bytes))
    → admit value identity context consumed ≡ granted value identity context consumed
unfolding admit granted
admit-granted value none context consumed = refl
admit-granted value (some name) context consumed = refl

-- The decision told from the configuration: nothing is asked if no identity has a token; otherwise
-- the header must be there, carry the scheme, and its token must belong to an identity.
unfoldable pub authenticate : TextMap → TextMap → AuthContext → List (Bytes × Bytes) → Processed
unfolding granted
authenticate config auth_metadata context consumed =
    if has_no_tokens config
    then (status_ok, context, consumed)
    else elim (lookup auth_header auth_metadata) [
      | none ↦ (unauthenticated_with missing_text, context, consumed)
      | some value ↦ elim (behind bearer_prefix value) [
        | none ↦ (unauthenticated_with scheme_text, context, consumed)
        | some token ↦ granted value (owner token config) context consumed
      ]
    ]

module _ (config : TextMap) (auth_metadata : TextMap) (context : AuthContext)
    (consumed : List (Bytes × Bytes)) where
  check_scheme-behind :
      (value : Bytes)
      → check_scheme (make_processor config) value context consumed
        ≡ (elim (behind bearer_prefix value) [
          | none ↦ (unauthenticated_with scheme_text, context, consumed)
          | some token ↦ granted value (owner token config) context consumed
        ])
  unfolding check_scheme
  check_scheme-behind value = elim (Bool-cases (scheme_fails bearer_prefix value)) [
    | inl bad ↦ rw (scheme_behind bearer_prefix value, bad)
    | inr good ↦ rw (
      scheme_behind bearer_prefix value,
      good,
      find_identity-owner (drop (length bearer_prefix) value) config,
      admit-granted,
    )
  ]

  -- For every configuration and every call, `Process` on the index that the constructor builds gives
  -- the status, the context and the consumed metadata that the configuration demands: where two
  -- identities share a token, the first in the map's order is stamped.
  pub process-authenticate :
      process (make_processor config) auth_metadata context consumed
      ≡ authenticate config auth_metadata context consumed
  unfolding process authenticate check_header
  process-authenticate = elim (Option-cases (lookup auth_header auth_metadata)) [
    | inl e ↦ rw (is_empty-make_processor config, e, check_header)
    | inr (value, e) ↦
        rw (is_empty-make_processor config, e, check_header, check_scheme-behind value)
  ]

  -- A call that gets through while some identity has a token had a header "Bearer " followed by a
  -- token that an identity of the configuration owns; that identity is stamped on the context and
  -- the header is marked as consumed.
  pub process_sound :
      has_no_tokens config ≡ false
      → is_ok (process (make_processor config) auth_metadata context consumed).0 ≡ true
      → (token : Bytes) × (identity : Bytes) × (lookup auth_header auth_metadata
          ≡ some (bearer_prefix ++ token))
        × (owner token config ≡ some identity)
        × (process (make_processor config) auth_metadata context consumed
            ≡ granted (bearer_prefix ++ token) (some identity) context consumed)
  unfolding authenticate
  process_sound asks passed =
      let allowed : is_ok (authenticate config auth_metadata context consumed).0 ≡ true =
        ap (λ (t : Processed). is_ok t.0) (sym process-authenticate) ∙ passed in
      elim (Option-cases (lookup auth_header auth_metadata)) [
        | inl e ↦ absurd (false≢true (ground (arith, e, asks, allowed)))
        | inr (value, e) ↦ elim (Option-cases (behind bearer_prefix value)) [
          | inl f ↦ absurd (false≢true (ground (arith, e, f, asks, allowed)))
          | inr (token, f) ↦ elim (Option-cases (owner token config)) [
            | inl g ↦ absurd (false≢true (ground (arith, e, f, g, asks, allowed)))
            | inr (identity, g) ↦ (
              token,
              identity,
              e ∙ ap some (behind-some bearer_prefix value token f),
              g,
              process-authenticate
                  ∙ rw (asks, e, f, g)
                      (ap (λ (t : Bytes). granted t (some identity) context consumed)
                        (behind-some bearer_prefix value token f)),
            )
          ]
        ]
      ]
