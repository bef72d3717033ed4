-- ===== src/Policy/Tests.antt =====
-- Runs of the access lists of src/server/RemSvcServiceImpl.cc.
use rem_svc.Base.{[], ◌∷◌, codes, bytes_eq, ◌≡◌, refl}
use rem_svc.Policy.{make_policy, check_allowed}
use mathlib.Core.List.Perm
use rem_svc.Policy.Unordered.{perm-SamePatterns, repeat-SamePatterns, check_allowed-SamePatterns}
use rem_svc.Policy.Verdict.{verdict, check_allowed-make_policy}
use rem_svc.Samples.{text_engine}

allowed_run :
    check_allowed text_engine
      (make_policy text_engine (codes "ls" ∷ []) (codes "rm" ∷ []))
      (codes "ls x")
    ≡ []
unfolding make_policy check_allowed bytes_eq
allowed_run = refl

check_allowed-make_policy_example :
    check_allowed text_engine
      (make_policy text_engine (codes "ls" ∷ []) (codes "rm" ∷ codes "(" ∷ []))
      (codes "ls; rm x")
    ≡ verdict text_engine (codes "ls" ∷ []) (codes "rm" ∷ codes "(" ∷ []) (codes "ls; rm x")
check_allowed-make_policy_example =
    check_allowed-make_policy text_engine (codes "ls" ∷ []) (codes "rm" ∷ codes "(" ∷ [])
      (codes "ls; rm x")

check_allowed-SamePatterns_example :
    check_allowed text_engine
      (make_policy text_engine (codes "ls" ∷ codes "ls" ∷ []) (codes "rm" ∷ codes "sh" ∷ []))
      (codes "ls; rm x")
    ≡ check_allowed text_engine
        (make_policy text_engine (codes "ls" ∷ []) (codes "sh" ∷ codes "rm" ∷ []))
        (codes "ls; rm x")
check_allowed-SamePatterns_example =
    check_allowed-SamePatterns text_engine (codes "ls" ∷ codes "ls" ∷ []) (codes "ls" ∷ [])
      (codes "rm" ∷ codes "sh" ∷ []) (codes "sh" ∷ codes "rm" ∷ []) (codes "ls; rm x")
      (repeat-SamePatterns (codes "ls") [])
      (perm-SamePatterns (codes "rm" ∷ codes "sh" ∷ []) (codes "sh" ∷ codes "rm" ∷ [])
        (Perm.swap (codes "sh") (codes "rm") []))
