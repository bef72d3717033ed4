-- ===== src/Env/Fidelity.antt =====
-- What `expandEnvVars` of src/server/ServerConfig.cc keeps of a text and what it replaces.
use rem_svc.Base.{
  ℕ, zero, suc, ◌<◌, [], ◌∷◌, ◌++◌, append_assoc, none, some, Bool, true, false, ◌&&◌, Bytes, All,
  length, ◌==◌, ==_iff, ◌≡◌, ◌≢◌, refl, sym, ap, ◌∙◌, arith, Bool-cases, inl, inr,
}
use rem_svc.Env.{
  GetEnv, dollar, open_brace, close_brace, is_name_byte, span_name, token_text, substitute,
  close_token, read_variable, expand_step, expand_env_vars,
}
use rem_svc.Env.Expansion.{expand_env_vars-nil, expand_env_vars-cons, length-expand_step}

-- No variable is set.
abbrev pub NoneSet : GetEnv → Type 0
NoneSet getenv = (name : Bytes) → getenv name ≡ none

abbrev begins_empty_braces : Bytes → Bool
begins_empty_braces [] = false
begins_empty_braces (a ∷ []) = false
begins_empty_braces (a ∷ b ∷ []) = false
begins_empty_braces (a ∷ b ∷ c ∷ s) = a == dollar && (b == open_brace && c == close_brace)

-- The text `${}` stands nowhere.
abbrev pub HasNoEmptyBraces : Bytes → Type 0
HasNoEmptyBraces [] = Unit {0}
HasNoEmptyBraces (c ∷ s) = (begins_empty_braces (c ∷ s) ≡ false) × HasNoEmptyBraces s

HasNoEmptyBraces-suffix : (p q : Bytes) → HasNoEmptyBraces (p ++ q) → HasNoEmptyBraces q
HasNoEmptyBraces-suffix [] q h = h
HasNoEmptyBraces-suffix (c ∷ p) q h = HasNoEmptyBraces-suffix p q h.1

span_name-append : (s : Bytes) → (span_name s).0 ++ (span_name s).1 ≡ s
unfolding span_name
span_name-append [] = refl
span_name-append (c ∷ s) = ground (arith, span_name-append s)

module _ (getenv : GetEnv) (unset : NoneSet getenv) where
  substitute-unset :
      (braced : Bool) (c : ℕ) (name : Bytes)
      → substitute getenv braced (c ∷ name) ≡ token_text braced (c ∷ name)
  unfolding substitute
  substitute-unset braced c name = rw (unset (c ∷ name))

  close_token-unset :
      (name rest : Bytes)
      → begins_empty_braces (dollar ∷ open_brace ∷ (name ++ rest)) ≡ false
      → (close_token getenv name rest).0 ++ (close_token getenv name rest).1
        ≡ dollar ∷ open_brace ∷ (name ++ rest)
  unfolding close_token token_text
  close_token-unset name [] h = refl
  close_token-unset [] (d ∷ rest) h = ground arith
  close_token-unset (c ∷ name) (d ∷ rest) h = elim (Bool-cases (d == close_brace)) [
    | inl e ↦
        rw (e, substitute-unset true c name, (==_iff d close_brace).0 e)
          (ap (λ (t : Bytes). dollar ∷ open_brace ∷ c ∷ t)
            (append_assoc name (close_brace ∷ []) rest))
    | inr e ↦ rw e
  ]

  bare-unset : (name rest : Bytes) → substitute getenv false name ++ rest ≡ dollar ∷ (name ++ rest)
  bare-unset [] rest = unfold substitute in refl
  bare-unset (c ∷ name) rest = rw (substitute-unset false c name) (unfold token_text in refl)

  read_variable-unset :
      (s : Bytes)
      → begins_empty_braces (dollar ∷ s) ≡ false
      → (read_variable getenv s).0 ++ (read_variable getenv s).1 ≡ dollar ∷ s
  read_variable-unset [] h = unfold read_variable in refl
  read_variable-unset (c ∷ s) h = elim (Bool-cases (c == open_brace)) [
    | inl e ↦
        let same = (==_iff c open_brace).0 e in
        unfold read_variable in
        rw e (
          close_token-unset (span_name s).0 (span_name s).1 (
            rw (span_name-append s)
              (ap (λ (t : ℕ). begins_empty_braces (dollar ∷ t ∷ s)) (sym same) ∙ h))
          ∙ ap (λ (t : Bytes). dollar ∷ open_brace ∷ t) (span_name-append s)
          ∙ ap (λ (t : ℕ). dollar ∷ t ∷ s) (sym same))
    | inr e ↦
        unfold read_variable in
        rw e (
          bare-unset (span_name (c ∷ s)).0 (span_name (c ∷ s)).1
          ∙ ap (◌∷◌ dollar) (span_name-append (c ∷ s)))
  ]

  expand_step-unset :
      (c : ℕ) (s : Bytes)
      → begins_empty_braces (c ∷ s) ≡ false
      → (expand_step getenv c s).0 ++ (expand_step getenv c s).1 ≡ c ∷ s
  expand_step-unset c s h = elim (Bool-cases (c == dollar)) [
    | inl e ↦
        let same = (==_iff c dollar).0 e in
        unfold expand_step in
        rw e (
          read_variable-unset s (ap (λ (t : ℕ). begins_empty_braces (t ∷ s)) (sym same) ∙ h)
          ∙ ap (λ (t : ℕ). t ∷ s) (sym same))
    | inr e ↦ unfold expand_step in rw e
  ]

  expand_below :
      (n : ℕ) (s : Bytes) → length s < n → HasNoEmptyBraces s → expand_env_vars getenv s ≡ s
  expand_below zero s p h = absurd (omega arith)
  expand_below (suc n) [] p h = expand_env_vars-nil getenv
  expand_below (suc n) (c ∷ s) p h =
      let whole = expand_step-unset c s h.0 in
      expand_env_vars-cons getenv c s
      ∙ ap (◌++◌ (expand_step getenv c s).0) (
          expand_below n (expand_step getenv c s).1 (omega (arith, length-expand_step getenv c s))
            (HasNoEmptyBraces-suffix (expand_step getenv c s).0 _ (rw whole h)))
      ∙ whole

  -- Where no variable is set, a text that does not hold `${}` is left exactly as it is, its tokens
  -- and its unfinished tokens included.
  pub expand_env_vars_unset : (s : Bytes) → HasNoEmptyBraces s → expand_env_vars getenv s ≡ s
  expand_env_vars_unset s h = expand_below (suc (length s)) s (omega arith) h

-- The text does not begin with a byte of a name.
abbrev pub StopsName : Bytes → Type 0
StopsName [] = Unit {0}
StopsName (c ∷ s) = is_name_byte c ≡ false

-- What may follow a token.
abbrev pub EndsToken : Bool → Bytes → Type 0
EndsToken true rest = Unit {0}
EndsToken false rest = StopsName rest

span_name_whole :
    (name rest : Bytes)
    → All (λ c. is_name_byte c ≡ true) name
    → StopsName rest
    → span_name (name ++ rest) ≡ (name, rest)
unfolding span_name
span_name_whole [] [] a s = refl
span_name_whole [] (c ∷ rest) a s = ground arith
span_name_whole (c ∷ name) rest a s = ground (arith, span_name_whole name rest)

pub expand_step_plain :
    (getenv : GetEnv) (c : ℕ) (s : Bytes) → c ≢ dollar → expand_step getenv c s ≡ (c ∷ [], s)
unfolding expand_step
expand_step_plain getenv c s h = ground arith

expand_plain :
    (getenv : GetEnv) (p t : Bytes)
    → All (λ c. c ≢ dollar) p
    → expand_env_vars getenv (p ++ t) ≡ p ++ expand_env_vars getenv t
expand_plain getenv [] t h = refl
expand_plain getenv (c ∷ p) t h =
    expand_env_vars-cons getenv c (p ++ t)
    ∙ ap (λ (r : Bytes × Bytes). r.0 ++ expand_env_vars getenv r.1)
        (expand_step_plain getenv c (p ++ t) h.0)
    ∙ ap (◌∷◌ c) (expand_plain getenv p t h.1)

-- A token `${name}` or `$name` is substituted, where no byte of a name follows one without braces.
module _ (getenv : GetEnv) (c : ℕ) (name rest : Bytes)
    (spelled : All (λ d. is_name_byte d ≡ true) (c ∷ name)) where
  braced_step :
      expand_step getenv dollar (open_brace ∷ ((c ∷ name) ++ close_brace ∷ rest))
      ≡ (substitute getenv true (c ∷ name), rest)
  braced_step =
      unfold expand_step read_variable in
      rw (span_name_whole (c ∷ name) (close_brace ∷ rest) spelled (unfold is_name_byte in refl))
        (unfold close_token in refl)

  bare_step :
      StopsName rest
      → expand_step getenv dollar ((c ∷ name) ++ rest) ≡ (substitute getenv false (c ∷ name), rest)
  bare_step stops =
      unfold expand_step read_variable substitute in
      rw no_brace (
        ap (λ (t : Bytes × Bytes). (substitute getenv false t.0, t.1))
          (span_name_whole (c ∷ name) rest spelled stops))
    where
      no_brace : (c == open_brace) ≡ false
      no_brace = unfold is_name_byte in ground (arith, spelled.0)

  pub expand_token :
      (braced : Bool)
      → EndsToken braced rest
      → expand_env_vars getenv (token_text braced (c ∷ name) ++ rest)
        ≡ substitute getenv braced (c ∷ name) ++ expand_env_vars getenv rest
  unfolding token_text
  expand_token false stops =
      expand_env_vars-cons getenv dollar _
      ∙ ap (λ (t : Bytes × Bytes). t.0 ++ expand_env_vars getenv t.1) (bare_step stops)
  expand_token true stops =
      ap (λ (t : Bytes). expand_env_vars getenv (dollar ∷ open_brace ∷ t))
        (append_assoc (c ∷ name) (close_brace ∷ []) rest)
      ∙ expand_env_vars-cons getenv dollar _
      ∙ ap (λ (t : Bytes × Bytes). t.0 ++ expand_env_vars getenv t.1) braced_step

-- A token `${name}` or `$name` behind a text with no `$`, of a variable that is set, is replaced by the
-- variable's value, where no byte of a name follows a token without braces; the value is not expanded
-- again, and the text behind the token is expanded.
expand_env_vars_set :
    (getenv : GetEnv) (p : Bytes) (c : ℕ) (name value rest : Bytes)
    → All (λ d. d ≢ dollar) p
    → All (λ d. is_name_byte d ≡ true) (c ∷ name)
    → getenv (c ∷ name) ≡ some value
    → (braced : Bool) → EndsToken braced rest
    → expand_env_vars getenv (p ++ (token_text braced (c ∷ name) ++ rest))
      ≡ p ++ (value ++ expand_env_vars getenv rest)
expand_env_vars_set getenv p c name value rest plain spelled set braced stops =
    expand_plain getenv p _ plain
    ∙ ap (◌++◌ p) (
        expand_token getenv c name rest spelled braced stops
        ∙ ap (λ (v : Bytes). v ++ expand_env_vars getenv rest) (unfold substitute in rw set))
