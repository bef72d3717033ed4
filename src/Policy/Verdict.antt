-- ===== src/Policy/Verdict.antt =====
-- What the access lists of src/server/RemSvcServiceImpl.cc decide, told from the patterns of the
-- configuration.
use rem_svc.Base.{
  List, [], ◌∷◌, ◌++◌, append_assoc, append-nil, Option, none, some, Bool, true, false, ◌&&◌, ◌||◌,
  Bytes, is_empty, if◌then◌else◌, ◌≡◌, refl, arith, exists_in, for_all, Option-cases, inl, inr, sym,
  ◌∙◌, ap,
}
use rem_svc.Policy.{
  RegexEngine, deny_all_text, denylist_text, allowlist_text, compile_loop, make_policy, any_match,
  check_allowed,
}

module _ (engine : RegexEngine) where
  open engine use {Regex, compile, search}

  -- The pattern is a regular expression.
  unfoldable pub compiles : Bytes → Bool
  compiles pat = elim (compile pat) [ none ↦ false | some rx ↦ true ]

  -- The pattern is a regular expression that is found in the command.
  unfoldable pub matches : Bytes → Bytes → Bool
  matches cmd pat = elim (compile pat) [ none ↦ false | some rx ↦ search cmd rx ]

  -- The reason to refuse a command under two lists of patterns; empty if there is none.
  unfoldable pub verdict : List Bytes → List Bytes → Bytes → Bytes
  unfolding exists_in for_all compiles matches
  verdict allow deny cmd =
      if for_all compiles allow && for_all compiles deny
      then (if exists_in (matches cmd) deny
          then denylist_text ++ cmd
          else if is_empty allow || exists_in (matches cmd) allow
          then []
          else allowlist_text ++ cmd)
      else deny_all_text

  -- The regular expressions of a list of patterns, or `none` if one is not a regular expression.
  cons_all : Regex → Option (List Regex) → Option (List Regex)
  cons_all rx none = none
  cons_all rx (some rxs) = some (rx ∷ rxs)

  compile_all : List Bytes → Option (List Regex)
  unfolding cons_all
  compile_all [] = some []
  compile_all (pat ∷ pats) = elim (compile pat) [
    | none ↦ none
    | some rx ↦ cons_all rx (compile_all pats)
  ]

  abbrev loop_result : List Regex → Bool → Option (List Regex) → List Regex × Bool
  loop_result out deny_all none = ([], true)
  loop_result out deny_all (some rxs) = (out ++ rxs, deny_all)

  loop_result-cons :
      (out : List Regex) (deny_all : Bool) (rx : Regex) (o : Option (List Regex))
      → loop_result (out ++ rx ∷ []) deny_all o ≡ loop_result out deny_all (cons_all rx o)
  unfolding cons_all
  loop_result-cons out deny_all rx none = refl
  loop_result-cons out deny_all rx (some rxs) =
      ap (λ (l : List Regex). (l, deny_all)) (append_assoc out (rx ∷ []) rxs)

  compile_loop-compile_all :
      (pats : List Bytes) (out : List Regex) (deny_all : Bool)
      → compile_loop engine pats out deny_all ≡ loop_result out deny_all (compile_all pats)
  unfolding compile_loop compile_all
  compile_loop-compile_all [] out deny_all =
      ap (λ (l : List Regex). (l, deny_all)) (sym (append-nil out))
  compile_loop-compile_all (pat ∷ pats) out deny_all = elim (Option-cases (compile pat)) [
    | inl e ↦ rw (e, compile_loop, compile_all)
    | inr (rx, e) ↦
        rw (e, compile_loop, compile_all)
          (compile_loop-compile_all pats (out ++ rx ∷ []) deny_all
            ∙ loop_result-cons out deny_all rx (compile_all pats))
  ]

  -- What a compiled list says of its patterns.
  abbrev Describes : List Bytes → Option (List Regex) → Type 0
  Describes pats none = for_all compiles pats ≡ false
  Describes pats (some rxs) =
      (for_all compiles pats ≡ true)
      × ((cmd : Bytes) → any_match engine cmd rxs ≡ exists_in (matches cmd) pats)
      × (is_empty rxs ≡ is_empty pats)

  Describes-cons :
      (pat : Bytes) (pats : List Bytes) (rx : Regex) (o : Option (List Regex))
      → compile pat ≡ some rx
      → Describes pats o
      → Describes (pat ∷ pats) (cons_all rx o)
  unfolding cons_all compiles matches any_match exists_in for_all
  Describes-cons pat pats rx none e h = ground (arith, h)
  Describes-cons pat pats rx (some rxs) e h =
      (ground (arith, h.0), λ cmd. ground (arith, h.1 cmd), refl)

  compile_all-Describes : (pats : List Bytes) → Describes pats (compile_all pats)
  unfolding compile_all any_match exists_in for_all
  compile_all-Describes [] = (refl, λ cmd. refl, refl)
  compile_all-Describes (pat ∷ pats) = elim (Option-cases (compile pat)) [
    | inl e ↦ rw (e, compile_all) (unfold compiles in ground (arith, e))
    | inr (rx, e) ↦
        rw (e, compile_all)
          (Describes-cons pat pats rx (compile_all pats) e (compile_all-Describes pats))
  ]

  check_allowed_cases :
      (allow deny : List Bytes) (cmd : Bytes) (a d : Option (List Regex))
      → compile_loop engine allow [] false ≡ loop_result [] false a
      → ((failed : Bool) → compile_loop engine deny [] failed ≡ loop_result [] failed d)
      → Describes allow a
      → Describes deny d
      → check_allowed engine (make_policy engine allow deny) cmd ≡ verdict allow deny cmd
  unfolding make_policy check_allowed verdict
  check_allowed_cases allow deny cmd none none ea ed ha hd = rw (ea, ed) (ground (arith, ed true))
  check_allowed_cases allow deny cmd none (some ds) ea ed ha hd = ground (arith, ed true)
  check_allowed_cases allow deny cmd (some rs) none ea ed ha hd = ground (arith, ed false)
  check_allowed_cases allow deny cmd (some rs) (some ds) ea ed ha hd =
      ground (arith, ed false, ha.1 cmd, hd.1 cmd)

  -- For every two lists of patterns and every command, the compiled lists refuse the command for the
  -- reason, and only for the reason, that the patterns give: one that is no regular expression
  -- refuses everything, a deny pattern that is found comes next, then an allowlist with no pattern
  -- that is found.
  pub check_allowed-make_policy :
      (allow deny : List Bytes) (cmd : Bytes)
      → check_allowed engine (make_policy engine allow deny) cmd ≡ verdict allow deny cmd
  check_allowed-make_policy allow deny cmd =
      check_allowed_cases allow deny cmd (compile_all allow) (compile_all deny)
        (compile_loop-compile_all allow [] false)
        (λ failed. compile_loop-compile_all deny [] failed) (compile_all-Describes allow)
        (compile_all-Describes deny)
