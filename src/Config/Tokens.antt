-- ===== src/Config/Tokens.antt =====
-- The tokens that `loadServerConfig` (src/server/ServerConfig.cc) collects, as the authentication of
-- src/server/AuthInterceptor.cc reads them.
use rem_svc.Base.{
  List, [], ◌∷◌, false, not, ◌&&◌, Bytes, All, is_empty, ◌≡◌, refl, ap, ◌∙◌, arith, Bool-cases, inl,
  inr,
}
use rem_svc.Base.Maps.{TextMap, emplace, IsSorted, emplace-IsSorted}
use rem_svc.Env.{GetEnv, expand_env_vars}
use rem_svc.Auth.{make_processor, is_enabled}
use rem_svc.Auth.Lookup.{has_no_tokens, is_empty-make_processor}
use rem_svc.Config.{
  ServerConfig, IniFile, auth, load_server, load_rest, collect_tokens, load_tokens,
  load_server_config,
}
use rem_svc.Config.Range.{is_loadable, load_server_config-is_loadable}

-- A map of identities in which every identity has a token.
pub record IsTokenMap (m : TextMap) : Type 0 where
  pub sorted : IsSorted m
  pub filled : All (λ e. is_empty e.1 ≡ false) m

filled-emplace :
    (k v : Bytes) (m : TextMap)
    → is_empty v ≡ false
    → All (λ e. is_empty e.1 ≡ false) m
    → All (λ e. is_empty e.1 ≡ false) (emplace k v m)
unfolding emplace
filled-emplace k v [] f h = (f, tt)
filled-emplace k v ((j, w) ∷ m) f h = ground (arith, filled-emplace k v m)

has_no_tokens-filled :
    (m : TextMap) → All (λ e. is_empty e.1 ≡ false) m → has_no_tokens m ≡ is_empty m
unfolding has_no_tokens
has_no_tokens-filled [] h = refl
has_no_tokens-filled ((j, w) ∷ m) h = rw h.0

-- For a map of this kind, authentication is enabled exactly if the map is not empty.
pub is_enabled-IsTokenMap :
    (m : TextMap) → IsTokenMap m → is_enabled (make_processor m) ≡ not (is_empty m)
unfolding is_enabled
is_enabled-IsTokenMap m h = ap not (is_empty-make_processor m ∙ has_no_tokens-filled m h.filled)

module _ (ini : IniFile) (getenv : GetEnv) where
  collect_tokens-IsTokenMap :
      (keys : List Bytes) (m : TextMap)
      → IsTokenMap m
      → IsTokenMap (collect_tokens ini getenv keys m)
  unfolding collect_tokens
  collect_tokens-IsTokenMap [] m h = h
  collect_tokens-IsTokenMap (k ∷ keys) m h =
      let token = expand_env_vars getenv (ini.to_text auth k) in
      elim (Bool-cases (is_empty token)) [
        | inl e ↦ rw e (collect_tokens-IsTokenMap keys m h)
        | inr e ↦ rw e (
            collect_tokens-IsTokenMap keys (emplace k token m) (record {
              sorted = emplace-IsSorted k token m h.sorted;
              filled = filled-emplace k token m e h.filled;
            }))
      ]

  load_tokens-IsTokenMap : (m : TextMap) → IsTokenMap m → IsTokenMap (load_tokens ini getenv m)
  unfolding load_tokens
  load_tokens-IsTokenMap m h = elim (Bool-cases (is_empty (ini.child_keys auth))) [
    | inl e ↦ rw e h
    | inr e ↦
        rw e
          (collect_tokens-IsTokenMap (ini.child_keys auth) [] (record { sorted = tt; filled = tt }))
  ]

  -- Loading keeps the map of identities sorted and free of empty tokens, also where it ends with an
  -- error.
  pub load_server_config-IsTokenMap :
      (path : Bytes) (cfg : ServerConfig)
      → IsTokenMap cfg.auth_tokens
      → IsTokenMap (load_server_config ini getenv path cfg).0.auth_tokens
  unfolding load_server
  load_server_config-IsTokenMap path cfg h =
      rw (load_server_config-is_loadable ini getenv path cfg).1
        (elim (Bool-cases (is_loadable ini getenv path cfg)) [
          | inl e ↦ rw e (unfold load_rest in load_tokens-IsTokenMap _ h)
          | inr e ↦
              rw e
                (elim (Bool-cases (ini.exists && ini.readable)) [ inl f ↦ rw f h | inr f ↦ rw f h ])
        ])
