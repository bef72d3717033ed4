-- ===== src/Env/Tests.antt =====
-- Runs of `expandEnvVars` (src/server/ServerConfig.cc).
use rem_svc.Base.{
  List, [], ◌∷◌, ◌++◌, some, true, false, bytes_eq, All, codes, ◌≡◌, ◌≢◌, refl, arith,
}
use rem_svc.Env.{token_text, dollar, is_name_byte, expand_loop, expand_env_vars}
use rem_svc.Env.Expansion.{expand_loop-expand_env_vars}
use rem_svc.Env.Fidelity.{expand_env_vars_unset}
use rem_svc.Env.Template.{Piece, plain, token, print, meaning, expand_env_vars-print}
use rem_svc.Samples.{home_only, nothing_set}

expand_loop-expand_env_vars_example :
    expand_loop 9 home_only (codes "$HOME/x") (codes "at ")
    ≡ some (codes "at " ++ expand_env_vars home_only (codes "$HOME/x"))
expand_loop-expand_env_vars_example =
    expand_loop-expand_env_vars home_only (codes "$HOME/x") 9 (codes "at ") (omega arith)

expand_env_vars_unset_example : expand_env_vars nothing_set (codes "a$B${C") ≡ codes "a$B${C"
expand_env_vars_unset_example =
    expand_env_vars_unset nothing_set (λ name. refl) (codes "a$B${C")
      (refl, (refl, (refl, (refl, (refl, (refl, tt))))))

slash_is_no_dollar : b'/' ≢ dollar
slash_is_no_dollar h = omega arith

name_bytes : All (λ d. is_name_byte d ≡ true) (codes "HOME")
unfolding is_name_byte
name_bytes = (refl, (refl, (refl, (refl, tt))))

other_bytes : All (λ d. is_name_byte d ≡ true) (codes "NO_1")
unfolding is_name_byte
other_bytes = (refl, (refl, (refl, (refl, tt))))

-- `/${HOME}/$NO_1`
abbrev pieces : List Piece
pieces = plain b'/' ∷ token true (codes "HOME") ∷ plain b'/' ∷ token false (codes "NO_1") ∷ []

expand_env_vars-print_example : expand_env_vars home_only (print pieces) ≡ meaning home_only pieces
expand_env_vars-print_example = expand_env_vars-print home_only pieces (
  slash_is_no_dollar,
  ((refl, name_bytes), tt, (slash_is_no_dollar, ((refl, other_bytes), tt, tt))),
)

-- The value is put in the place of the first token, and the second stays.
pieces_run : meaning home_only pieces ≡ codes "//root/$NO_1"
unfolding bytes_eq token_text
pieces_run = refl
