-- ===== src/Policy.antt =====
-- The allowlist and denylist of src/server/RemSvcServiceImpl.cc: their compilation in the
-- constructor and `checkAllowed`. `std::regex` is a parameter: what compiles, and what a search finds.
pub mod Verdict
pub mod Unordered
mod Tests
use rem_svc.Base.{
  List, [], ◌∷◌, ◌++◌, Option, none, some, Bool, true, false, Bytes, codes, is_empty, if◌then◌else◌,
}

pub record RegexEngine : Type 1 where
  pub Regex : Type 0
  -- `none` for the patterns on which the constructor of `std::regex` throws `regex_error`.
  pub compile : Bytes → Option Regex
  -- `std::regex_search(s, rx)`
  pub search : Bytes → Regex → Bool

abbrev pub deny_all_text : Bytes
deny_all_text = codes "all commands denied: allowlist configuration is invalid (check server logs)"

abbrev pub denylist_text : Bytes
denylist_text = codes "command denied by denylist: "

abbrev pub allowlist_text : Bytes
allowlist_text = codes "command not permitted by allowlist: "

module _ (engine : RegexEngine) where
  open engine use {Regex, compile, search}

  -- The members `m_allowlist`, `m_denylist` and `m_denyAll`.
  pub record Policy : Type 0 where
    pub allowlist : List Regex
    pub denylist : List Regex
    pub deny_all : Bool

  -- The loop over the patterns: the first that does not compile clears the list and sets `m_denyAll`.
  pub compile_loop : List Bytes → List Regex → Bool → List Regex × Bool
  compile_loop [] out deny_all = (out, deny_all)
  compile_loop (pat ∷ pats) out deny_all = elim (compile pat) [
    | none ↦ ([], true)
    | some rx ↦ compile_loop pats (out ++ rx ∷ []) deny_all
  ]

  unfoldable pub make_policy : List Bytes → List Bytes → Policy
  unfolding compile_loop
  make_policy allow deny =
      let (allowlist, allow_failed) = compile_loop allow [] false in
      let (denylist, failed) = compile_loop deny [] allow_failed in
      record { allowlist = allowlist; denylist = denylist; deny_all = failed }

  pub any_match : Bytes → List Regex → Bool
  any_match s [] = false
  any_match s (rx ∷ rxs) = if search s rx then true else any_match s rxs

  -- The empty text if the command is allowed, else the reason.
  unfoldable pub check_allowed : Policy → Bytes → Bytes
  unfolding any_match
  check_allowed p cmd =
      if p.deny_all
      then deny_all_text
      else if any_match cmd p.denylist
      then denylist_text ++ cmd
      else if is_empty p.allowlist
      then []
      else if any_match cmd p.allowlist
      then []
      else allowlist_text ++ cmd
