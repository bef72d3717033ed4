-- ===== src/Env.antt =====
-- `expandEnvVars` of src/server/ServerConfig.cc. The index into the text is the part of it that is
-- still to be read; `getenv` is a parameter. The loop runs on fuel, one unit for each round.
pub mod Expansion
pub mod Fidelity
pub mod Template
mod Tests
use rem_svc.Base.{
  ℕ, zero, suc, [], ◌∷◌, ◌++◌, Option, none, some, Bool, true, false, ◌&&◌, ◌||◌, Bytes, is_empty,
  length, leb, ◌==◌, if◌then◌else◌,
}

abbrev pub GetEnv : Type 0
GetEnv = Bytes → Option Bytes

abbrev pub dollar : ℕ
dollar = b'$'

abbrev pub open_brace : ℕ
open_brace = b'{'

abbrev pub close_brace : ℕ
close_brace = b'}'

pub is_name_byte : ℕ → Bool
is_name_byte c =
    (leb b'A' c && leb c b'Z')
    || (leb b'a' c && leb c b'z')
    || (leb b'0' c && leb c b'9')
    || c == b'_'

-- The inner loop: the bytes of a name, and the text behind them.
pub span_name : Bytes → Bytes × Bytes
span_name [] = ([], [])
span_name (c ∷ s) =
    let (name, rest) = span_name s in if is_name_byte c then (c ∷ name, rest) else ([], c ∷ s)

-- `$`, with what stood round the name.
pub token_text : Bool → Bytes → Bytes
token_text true name = dollar ∷ open_brace ∷ (name ++ close_brace ∷ [])
token_text false name = dollar ∷ name

-- From the test of the empty name on.
pub substitute : GetEnv → Bool → Bytes → Bytes
substitute getenv braced name =
    if is_empty name
    then dollar ∷ []
    else elim (getenv name) [ some value ↦ value | none ↦ token_text braced name ]

-- `name` has been read behind `${`; the text behind it must begin with `}`.
pub close_token : GetEnv → Bytes → Bytes → Bytes × Bytes
close_token getenv name [] = (dollar ∷ open_brace ∷ name, [])
close_token getenv name (c ∷ rest) =
    if c == close_brace
    then (substitute getenv true name, rest)
    else (dollar ∷ open_brace ∷ name, c ∷ rest)

-- The text behind a `$`: what it adds to the result, and what is left to read.
pub read_variable : GetEnv → Bytes → Bytes × Bytes
unfolding span_name close_token substitute token_text
read_variable getenv [] = (substitute getenv false [], [])
read_variable getenv (c ∷ s) =
    let (name, rest) = span_name s in
    let (bare_name, bare_rest) = span_name (c ∷ s) in
    if c == open_brace
    then close_token getenv name rest
    else (substitute getenv false bare_name, bare_rest)

-- One round of the outer loop, at the byte `c`.
pub expand_step : GetEnv → ℕ → Bytes → Bytes × Bytes
unfolding read_variable
expand_step getenv c s = if c == dollar then read_variable getenv s else (c ∷ [], s)

-- `none` means that the fuel ran out.
pub expand_loop : ℕ → GetEnv → Bytes → Bytes → Option Bytes
expand_loop zero getenv s result = none
expand_loop (suc fuel) getenv [] result = some result
expand_loop (suc fuel) getenv (c ∷ s) result =
    let (added, rest) = expand_step getenv c s in expand_loop fuel getenv rest (result ++ added)

abbrev or_empty : Option Bytes → Bytes
or_empty none = []
or_empty (some s) = s

-- Every round reads a byte, so one unit more than there are bytes is enough.
unfoldable pub expand_env_vars : GetEnv → Bytes → Bytes
unfolding expand_loop expand_step is_name_byte
expand_env_vars getenv s = or_empty (expand_loop (suc (length s)) getenv s [])
