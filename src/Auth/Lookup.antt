-- ===== src/Auth/Lookup.antt =====
-- What the token index of src/server/AuthInterceptor.cc holds, and what the search in it finds.
use rem_svc.Base.{
  [], ◌∷◌, Option, none, some, Bool, true, false, not, ◌&&◌, Bytes, is_empty, bytes_eq,
  bytes_eq_iff, if◌then◌else◌, ◌≡◌, refl, sym, ap, ◌∙◌, arith, Bool-cases, inl, inr,
}
use rem_svc.Base.Maps.{
  TextMap, lookup, emplace, IsSorted, emplace-IsSorted, lookup-emplace, lookup-Above, lookup-nil,
  or_else,
}
use rem_svc.Auth.{index_tokens, make_processor, find_identity}
use rem_svc.Auth.Compare.{const_time_equal-bytes_eq}

-- The first identity, in the order of the configuration's map, that has the token as its own.
unfoldable pub owner : Bytes → TextMap → Option Bytes
owner token [] = none
owner token ((identity, secret) ∷ rest) =
    if not (is_empty secret) && bytes_eq token secret then some identity else owner token rest

-- No identity has a token.
unfoldable pub has_no_tokens : TextMap → Bool
has_no_tokens [] = true
has_no_tokens ((identity, secret) ∷ rest) = is_empty secret && has_no_tokens rest

or_else_assoc : (a b c : Option Bytes) → or_else (or_else a b) c ≡ or_else a (or_else b c)
or_else_assoc none b c = refl
or_else_assoc (some v) b c = refl

or_else-none : (a : Option Bytes) → or_else a none ≡ a
or_else-none none = refl
or_else-none (some v) = refl

lookup-index_tokens :
    (token : Bytes) (config tokens : TextMap)
    → IsSorted tokens
    → (lookup token (index_tokens config tokens)
        ≡ or_else (lookup token tokens) (owner token config))
      × IsSorted (index_tokens config tokens)
unfolding index_tokens owner
lookup-index_tokens token [] tokens s = (sym (or_else-none (lookup token tokens)), s)
lookup-index_tokens token ((identity, secret) ∷ rest) tokens s =
    elim (Bool-cases (is_empty secret)) [
      | inl none' ↦ rw (none', owner) (lookup-index_tokens token rest tokens s)
      | inr some' ↦
          rw (some', owner)
            (let more =
                lookup-index_tokens token rest (emplace secret identity tokens)
                  (emplace-IsSorted secret identity tokens s) in
              (
                more.0
                    ∙ ap (λ (o : Option Bytes). or_else o (owner token rest))
                        (lookup-emplace token secret identity tokens s)
                    ∙ or_else_assoc (lookup token tokens)
                        (if bytes_eq token secret then some identity else none) (owner token rest)
                    ∙ ap (or_else (lookup token tokens)) (pick (bytes_eq token secret)),
                more.1,
              ))
    ]
  where
    pick :
        (b : Bool)
        → or_else (if b then some identity else none) (owner token rest)
          ≡ (if b then some identity else owner token rest)
    pick true = refl
    pick false = refl

find_identity-lookup :
    (token : Bytes) (tokens : TextMap) (found : Option Bytes)
    → IsSorted tokens
    → find_identity token tokens found ≡ or_else (lookup token tokens) found
unfolding find_identity lookup
find_identity-lookup token [] found s = refl
find_identity-lookup token ((stored, identity) ∷ rest) found s = ground (
  arith,
  const_time_equal-bytes_eq token stored,
  bytes_eq_iff token stored,
  find_identity-lookup token rest found,
  find_identity-lookup token rest (some identity),
  lookup-Above stored rest,
)

-- The search through the index finds the first owner of the token in the configuration.
pub find_identity-owner :
    (token : Bytes) (config : TextMap)
    → find_identity token (make_processor config) none ≡ owner token config
unfolding make_processor
find_identity-owner token config =
    let index = lookup-index_tokens token config [] tt in
    find_identity-lookup token _ none index.1
    ∙ or_else-none _
    ∙ index.0
    ∙ ap (λ (o : Option Bytes). or_else o (owner token config)) (lookup-nil token)

is_empty-emplace : (k v : Bytes) (m : TextMap) → is_empty (emplace k v m) ≡ false
unfolding emplace
is_empty-emplace k v [] = refl
is_empty-emplace k v ((j, w) ∷ m) = ground arith

is_empty-index_tokens :
    (config tokens : TextMap)
    → is_empty (index_tokens config tokens) ≡ (is_empty tokens && has_no_tokens config)
unfolding index_tokens has_no_tokens
is_empty-index_tokens [] [] = refl
is_empty-index_tokens [] (t ∷ tokens) = refl
is_empty-index_tokens ((identity, secret) ∷ rest) tokens = ground (
  arith,
  is_empty-index_tokens rest tokens,
  is_empty-index_tokens rest (emplace secret identity tokens),
  is_empty-emplace secret identity tokens,
)

pub is_empty-make_processor :
    (config : TextMap) → is_empty (make_processor config) ≡ has_no_tokens config
unfolding make_processor
is_empty-make_processor config = is_empty-index_tokens config []
