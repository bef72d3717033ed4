-- ===== src/Assertions.antt =====
-- src/common/Assert.{hh,cc}: the checks of conditions. The result is the message of the `runtime_error`
-- that is thrown, if one is.
use rem_svc.Base.{ℕ, ◌∷◌, ◌++◌, Option, none, some, Bool, not, Bytes, codes, if◌then◌else◌}
use rem_svc.Base.Int.{nat_text}

-- `std::source_location`
pub record Location : Type 0 where
  pub file_name : Bytes
  pub line : ℕ
  pub column : ℕ
  pub function_name : Bytes

abbrev failure : Bytes → Location → Bytes
failure what loc =
    what
    ++ (loc.file_name
        ++ (b'(' ∷ nat_text loc.line)
        ++ (b':' ∷ nat_text loc.column)
        ++ (b')' ∷ loc.function_name))

-- `Expects`
unfoldable pub expects : Bool → Location → Option Bytes
expects v loc = if not v then some (failure (codes "Expect failure at ") loc) else none

-- `Ensures`
unfoldable pub ensures : Bool → Location → Option Bytes
ensures v loc = if not v then some (failure (codes "Ensure failure at ") loc) else none
