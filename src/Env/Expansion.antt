-- ===== src/Env/Expansion.antt =====
-- The loop of `expandEnvVars` (src/server/ServerConfig.cc) ends, and what it gives, round by round.
use rem_svc.Base.{
  ℕ, zero, suc, ◌≤◌, ◌<◌, [], ◌∷◌, ◌++◌, append-nil, append_assoc, some, Bytes, length, ◌==◌, ◌≡◌,
  refl, sym, ap, ◌∙◌, arith, Bool-cases, inl, inr,
}
use rem_svc.Env.{
  GetEnv, dollar, open_brace, span_name, close_token, read_variable, expand_step, expand_loop,
  or_empty, expand_env_vars,
}

length-span_name : (s : Bytes) → length (span_name s).1 ≤ length s
unfolding span_name
length-span_name [] = omega arith
length-span_name (c ∷ s) = ground (arith, length-span_name s)

length-close_token :
    (getenv : GetEnv) (name s : Bytes) → length (close_token getenv name s).1 ≤ length s
unfolding close_token
length-close_token getenv name [] = omega arith
length-close_token getenv name (c ∷ s) = ground arith

length-read_variable : (getenv : GetEnv) (s : Bytes) → length (read_variable getenv s).1 ≤ length s
length-read_variable getenv [] = unfold read_variable in omega arith
length-read_variable getenv (c ∷ s) = elim (Bool-cases (c == open_brace)) [
  | inl e ↦
      unfold read_variable in
      rw e (
        omega
          (arith, length-close_token getenv (span_name s).0 (span_name s).1, length-span_name s))
  | inr e ↦ unfold read_variable in rw e (length-span_name (c ∷ s))
]

pub length-expand_step :
    (getenv : GetEnv) (c : ℕ) (s : Bytes) → length (expand_step getenv c s).1 ≤ length s
length-expand_step getenv c s = elim (Bool-cases (c == dollar)) [
  | inl e ↦ unfold expand_step in rw e (length-read_variable getenv s)
  | inr e ↦ unfold expand_step in rw e (omega arith)
]

-- The text has an expansion that the loop reaches with any fuel above its length.
record HasExpansion (getenv : GetEnv) (s : Bytes) : Type 0 where
  value : Bytes
  reached :
      (fuel : ℕ) (result : Bytes)
      → length s < fuel
      → expand_loop fuel getenv s result ≡ some (result ++ value)

HasExpansion-step :
    (getenv : GetEnv) (c : ℕ) (s : Bytes)
    → HasExpansion getenv (expand_step getenv c s).1
    → HasExpansion getenv (c ∷ s)
HasExpansion-step getenv c s h = record {
  value = (expand_step getenv c s).0 ++ h.value;
  reached = go;
}
  where
    go :
        (fuel : ℕ) (result : Bytes)
        → length (c ∷ s) < fuel
        → expand_loop fuel getenv (c ∷ s) result
          ≡ some (result ++ ((expand_step getenv c s).0 ++ h.value))
    go zero result p = absurd (omega arith)
    go (suc fuel) result p =
        unfold expand_loop in
        (h.reached fuel (result ++ (expand_step getenv c s).0)
            (omega (arith, length-expand_step getenv c s))
          ∙ ap some (append_assoc result (expand_step getenv c s).0 h.value))

expansion : (n : ℕ) (getenv : GetEnv) (s : Bytes) → length s < n → HasExpansion getenv s
expansion zero getenv s p = absurd (omega arith)
expansion (suc n) getenv [] p = record { value = []; reached = go }
  where
    go :
        (fuel : ℕ) (result : Bytes)
        → 0 < fuel
        → expand_loop fuel getenv [] result ≡ some (result ++ [])
    go zero result h = absurd (omega arith)
    go (suc fuel) result h = unfold expand_loop in ap some (sym (append-nil result))
expansion (suc n) getenv (c ∷ s) p =
    HasExpansion-step getenv c s
      (expansion n getenv (expand_step getenv c s).1 (omega (arith, length-expand_step getenv c s)))

expand_env_vars-value :
    (getenv : GetEnv) (s : Bytes) (h : HasExpansion getenv s) → expand_env_vars getenv s ≡ h.value
expand_env_vars-value getenv s h =
    unfold expand_env_vars in ap or_empty (h.reached (suc (length s)) [] (omega arith))

-- The loop ends: with any fuel above the text's length it does not run out, and it appends the
-- expansion to the result so far.
pub expand_loop-expand_env_vars :
    (getenv : GetEnv) (s : Bytes) (fuel : ℕ) (result : Bytes)
    → length s < fuel
    → expand_loop fuel getenv s result ≡ some (result ++ expand_env_vars getenv s)
expand_loop-expand_env_vars getenv s fuel result p =
    let h = expansion fuel getenv s p in
    h.reached fuel result p
    ∙ ap (λ (v : Bytes). some (result ++ v)) (sym (expand_env_vars-value getenv s h))

pub expand_env_vars-nil : (getenv : GetEnv) → expand_env_vars getenv [] ≡ []
unfolding expand_env_vars
expand_env_vars-nil getenv = refl

-- The expansion of a text, one round unrolled.
pub expand_env_vars-cons :
    (getenv : GetEnv) (c : ℕ) (s : Bytes)
    → expand_env_vars getenv (c ∷ s)
      ≡ (let (added, rest) = expand_step getenv c s in added ++ expand_env_vars getenv rest)
unfolding HasExpansion-step
expand_env_vars-cons getenv c s =
    let rest = (expand_step getenv c s).1 in
    let h = expansion (suc (length rest)) getenv rest (omega arith) in
    expand_env_vars-value getenv (c ∷ s) (HasExpansion-step getenv c s h)
    ∙ ap (◌++◌ (expand_step getenv c s).0) (sym (expand_env_vars-value getenv rest h))
