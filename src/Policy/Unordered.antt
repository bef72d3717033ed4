-- ===== src/Policy/Unordered.antt =====
-- The access lists of src/server/RemSvcServiceImpl.cc as sets of patterns: what the order and the
-- repetition of patterns, which src/server/ServerConfig.cc takes from the sorted keys, make of a decision.
use mathlib.Core.Logic.Or
use mathlib.Core.Logic.{∥∥₁_elim}
use mathlib.Core.Quot
use mathlib.Core.Quot.{Quot}
use mathlib.Core.List.Perm
use mathlib.Core.List.{Mem, Perm, mem-cons, mem-cons_self, mem-cons_of_mem, not-mem-nil}
use rem_svc.Base.{
  List, [], ◌∷◌, Bool, true, false, not, Bytes, is_empty, exists_in, for_all, ◌≡◌, ◌↔◌, ◌∙◌, ap,
  sym, refl, arith, Bool-cases, inl, inr,
}
use rem_svc.Policy.{RegexEngine, make_policy, check_allowed}
use rem_svc.Policy.Verdict.{compiles, matches, verdict, check_allowed-make_policy}

-- The same patterns, in any order and as often as one likes.
abbrev pub SamePatterns : List Bytes → List Bytes → Type 0
SamePatterns xs ys = (pat : Bytes) → Mem pat xs ↔ Mem pat ys

same_as_itself : (xs : List Bytes) → SamePatterns xs xs
same_as_itself xs pat = (λ m. m, λ m. m)

-- An order of the patterns.
pub perm-SamePatterns : (xs ys : List Bytes) → Perm xs ys → SamePatterns xs ys
perm-SamePatterns xs ys p pat = Perm.mem_iff p

-- A repeated pattern.
pub repeat-SamePatterns : (x : Bytes) (xs : List Bytes) → SamePatterns (x ∷ x ∷ xs) (x ∷ xs)
repeat-SamePatterns x xs pat = (
  λ m. Or.elim (hlevel) (mem-cons.0 m) (λ e. mem-cons.1 (Or.inl e)) (λ m'. m'),
  λ m. mem-cons_of_mem x m,
)

exists_in-Mem :
    (test : Bytes → Bool) (xs : List Bytes) (pat : Bytes)
    → Mem pat xs
    → test pat ≡ true
    → exists_in test xs ≡ true
unfolding exists_in
exists_in-Mem test [] pat m h = absurd (not-mem-nil m)
exists_in-Mem test (x ∷ xs) pat m h =
    Or.elim (hlevel) (mem-cons.0 m) (λ e. ground (arith, ap test (sym e) ∙ h))
      (λ m'. ground (arith, exists_in-Mem test xs pat m' h))

exists_in-found :
    (test : Bytes → Bool) (xs : List Bytes)
    → exists_in test xs ≡ true
    → ∥ ((pat : Bytes) × Mem pat xs × (test pat ≡ true)) ∥₁
unfolding exists_in
exists_in-found test [] h = absurd (ground (arith, h))
exists_in-found test (x ∷ xs) h = elim (Bool-cases (test x)) [
  | inl found ↦ ∣ (x, mem-cons_self, found) ∣₁
  | inr missed ↦
      ∥∥₁_elim (exists_in-found test xs (ground (arith, h, missed))) (hlevel)
        (λ p. ∣ (p.0, mem-cons_of_mem x p.1, p.2) ∣₁)
]

exists_in-one_way :
    (test : Bytes → Bool) (xs ys : List Bytes)
    → ((pat : Bytes) → Mem pat xs → Mem pat ys)
    → exists_in test xs ≡ true
    → exists_in test ys ≡ true
exists_in-one_way test xs ys within h =
    ∥∥₁_elim (exists_in-found test xs h) (hlevel)
      (λ p. exists_in-Mem test ys p.0 (within p.0 p.1) p.2)

same_truth : (a b : Bool) → (a ≡ true → b ≡ true) → (b ≡ true → a ≡ true) → a ≡ b
same_truth true true f g = refl
same_truth true false f g = sym (f refl)
same_truth false true f g = g refl
same_truth false false f g = refl

exists_in-SamePatterns :
    (test : Bytes → Bool) (xs ys : List Bytes)
    → SamePatterns xs ys
    → exists_in test xs ≡ exists_in test ys
exists_in-SamePatterns test xs ys same =
    same_truth (exists_in test xs) (exists_in test ys)
      (exists_in-one_way test xs ys (λ pat. (same pat).0))
      (exists_in-one_way test ys xs (λ pat. (same pat).1))

for_all-exists_in :
    (test : Bytes → Bool) (xs : List Bytes)
    → for_all test xs ≡ not (exists_in (λ pat. not (test pat)) xs)
unfolding for_all exists_in
for_all-exists_in test [] = refl
for_all-exists_in test (x ∷ xs) = ground (arith, for_all-exists_in test xs)

is_empty-exists_in : (xs : List Bytes) → is_empty xs ≡ not (exists_in (λ pat. true) xs)
unfolding exists_in
is_empty-exists_in [] = refl
is_empty-exists_in (x ∷ xs) = refl

for_all-SamePatterns :
    (test : Bytes → Bool) (xs ys : List Bytes)
    → SamePatterns xs ys
    → for_all test xs ≡ for_all test ys
for_all-SamePatterns test xs ys same =
    for_all-exists_in test xs
    ∙ ap not (exists_in-SamePatterns (λ pat. not (test pat)) xs ys same)
    ∙ sym (for_all-exists_in test ys)

is_empty-SamePatterns : (xs ys : List Bytes) → SamePatterns xs ys → is_empty xs ≡ is_empty ys
is_empty-SamePatterns xs ys same =
    is_empty-exists_in xs
    ∙ ap not (exists_in-SamePatterns (λ pat. true) xs ys same)
    ∙ sym (is_empty-exists_in ys)

module _ (engine : RegexEngine) where
  verdict-SamePatterns :
      (allow allow' deny deny' : List Bytes) (cmd : Bytes)
      → SamePatterns allow allow'
      → SamePatterns deny deny'
      → verdict engine allow deny cmd ≡ verdict engine allow' deny' cmd
  unfolding verdict
  verdict-SamePatterns allow allow' deny deny' cmd a d =
      rw
        (
          for_all-SamePatterns (compiles engine) allow allow' a,
          for_all-SamePatterns (compiles engine) deny deny' d,
          exists_in-SamePatterns (matches engine cmd) allow allow' a,
          exists_in-SamePatterns (matches engine cmd) deny deny' d,
          is_empty-SamePatterns allow allow' a,
        )
        refl

  -- Lists of the same patterns decide on every command alike, with the same reason, whatever the order
  -- and the repetition of the patterns in the allowlist and in the denylist.
  pub check_allowed-SamePatterns :
      (allow allow' deny deny' : List Bytes) (cmd : Bytes)
      → SamePatterns allow allow'
      → SamePatterns deny deny'
      → check_allowed engine (make_policy engine allow deny) cmd
        ≡ check_allowed engine (make_policy engine allow' deny') cmd
  check_allowed-SamePatterns allow allow' deny deny' cmd a d =
      check_allowed-make_policy engine allow deny cmd
      ∙ verdict-SamePatterns allow allow' deny deny' cmd a d
      ∙ sym (check_allowed-make_policy engine allow' deny' cmd)

  -- A list of patterns without their order and repetition, and the decision on two of these.
  abbrev Patterns : Type 0
  Patterns = Quot SamePatterns

  unfoldable decide_with : Bytes → List Bytes → Patterns → Bytes
  decide_with cmd allow =
      Quot.lift (hlevel) (λ deny. check_allowed engine (make_policy engine allow deny) cmd)
        (λ deny deny' d.
          check_allowed-SamePatterns allow allow deny deny' cmd (same_as_itself allow) d)

  decide_with-SamePatterns :
      (cmd : Bytes) (allow allow' : List Bytes) (deny : Patterns)
      → SamePatterns allow allow'
      → decide_with cmd allow deny ≡ decide_with cmd allow' deny
  unfolding decide_with
  decide_with-SamePatterns cmd allow allow' deny a =
      Quot.ind {β = λ deny. decide_with cmd allow deny ≡ decide_with cmd allow' deny}
        (λ deny. hlevel)
        (λ deny. check_allowed-SamePatterns allow allow' deny deny cmd a (same_as_itself deny)) deny

  unfoldable decide : Bytes → Patterns → Patterns → Bytes
  unfolding decide_with
  decide cmd allow deny =
      Quot.lift (hlevel) (λ allow. decide_with cmd allow deny)
        (λ allow allow' a. decide_with-SamePatterns cmd allow allow' deny a) allow

  -- The decision of the compiled lists is one on the sets of the patterns.
  check_allowed-decide :
      (allow deny : List Bytes) (cmd : Bytes)
      → check_allowed engine (make_policy engine allow deny) cmd
        ≡ decide cmd (Quot.mk allow) (Quot.mk deny)
  unfolding decide decide_with
  check_allowed-decide allow deny cmd = refl
