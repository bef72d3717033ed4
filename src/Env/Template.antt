-- ===== src/Env/Template.antt =====
-- `expandEnvVars` of src/server/ServerConfig.cc on a text made of bytes and tokens: the grammar of the
-- texts that it expands, and what each part stands for.
use rem_svc.Base.{
  ℕ, List, [], ◌∷◌, ◌++◌, none, some, Bool, true, false, Bytes, All, is_empty, ◌≡◌, ◌≢◌, refl, ap,
  ◌∙◌,
}
use rem_svc.Env.{GetEnv, dollar, is_name_byte, token_text, substitute, expand_env_vars}
use rem_svc.Env.Expansion.{expand_env_vars-nil, expand_env_vars-cons}
use rem_svc.Env.Fidelity.{EndsToken, expand_step_plain, expand_token}

pub data Piece : Type 0 where
  -- a byte that stands for itself
  plain : ℕ → Piece
  -- `${name}` if the Boolean is true, else `$name`
  token : Bool → Bytes → Piece

abbrev pub print : List Piece → Bytes
print [] = []
print (plain c ∷ ps) = c ∷ print ps
print (token braced name ∷ ps) = token_text braced name ++ print ps

-- The value of a variable, or the token itself if it is not set.
abbrev pub value_of : GetEnv → Bool → Bytes → Bytes
value_of getenv braced name = elim (getenv name) [
  | some value ↦ value
  | none ↦ token_text braced name
]

abbrev pub meaning : GetEnv → List Piece → Bytes
meaning getenv [] = []
meaning getenv (plain c ∷ ps) = c ∷ meaning getenv ps
meaning getenv (token braced name ∷ ps) = value_of getenv braced name ++ meaning getenv ps

-- No byte is a `$`, the names are not empty and have bytes of a name only, and no such byte follows a
-- token without braces.
abbrev pub IsTemplate : List Piece → Type 0
IsTemplate [] = Unit {0}
IsTemplate (plain c ∷ ps) = (c ≢ dollar) × IsTemplate ps
IsTemplate (token braced name ∷ ps) =
    ((is_empty name ≡ false) × All (λ d. is_name_byte d ≡ true) name)
    × EndsToken braced (print ps)
    × IsTemplate ps

-- The expansion of a text made of bytes and tokens puts the value of its variable in the place of each
-- token, in order, and leaves each byte and each token of a variable that is not set; a value is not
-- expanded again. No byte is a `$`, each name has at least one byte and bytes of a name only, and no
-- byte of a name follows a token without braces.
pub expand_env_vars-print :
    (getenv : GetEnv) (ps : List Piece)
    → IsTemplate ps
    → expand_env_vars getenv (print ps) ≡ meaning getenv ps
expand_env_vars-print getenv [] h = expand_env_vars-nil getenv
expand_env_vars-print getenv (plain c ∷ ps) h =
    expand_env_vars-cons getenv c (print ps)
    ∙ ap (λ (r : Bytes × Bytes). r.0 ++ expand_env_vars getenv r.1)
        (expand_step_plain getenv c (print ps) h.0)
    ∙ ap (◌∷◌ c) (expand_env_vars-print getenv ps h.1)
expand_env_vars-print getenv (token braced [] ∷ ps) h = absurd (cc h.0.0)
expand_env_vars-print getenv (token braced (c ∷ name) ∷ ps) h =
    expand_token getenv c name (print ps) h.0.1 braced h.1
    ∙ ap (◌++◌ (substitute getenv braced (c ∷ name))) (expand_env_vars-print getenv ps h.2)
    ∙ unfold substitute in refl
