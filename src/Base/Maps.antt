-- ===== src/Base/Maps.antt =====
-- `std::map<std::string, std::string>` as the list of its entries in the order of iteration.
use mathlib.Core.Path.{◌≡◌, refl}
use mathlib.Core.Bool.{true}
use mathlib.Core.Option.{Option, none, some}
use mathlib.Core.List.{List, [], ◌∷◌}
use native.Mathlib.Omega.{arith}
use rem_svc.Base.Bools.{if◌then◌else◌}
use rem_svc.Base.Text.{Bytes, bytes_eq, bytes_eq_iff, bytes_lt}
use rem_svc.Base.Order.{bytes_lt_trans, bytes_lt_connected, bytes_lt-ne}

abbrev pub TextMap : Type 0
TextMap = List (Bytes × Bytes)

-- `m.find(k)`, as the value or none.
unfoldable pub lookup : Bytes → TextMap → Option Bytes
lookup k [] = none
lookup k ((j, v) ∷ m) = if bytes_eq k j then some v else lookup k m

pub lookup-nil : (k : Bytes) → lookup k [] ≡ none
unfolding lookup
lookup-nil k = refl

-- `m.emplace(k, v)`: no change if the key is there.
unfoldable pub emplace : Bytes → Bytes → TextMap → TextMap
emplace k v [] = (k, v) ∷ []
emplace k v ((j, w) ∷ m) =
    if bytes_lt k j
    then (k, v) ∷ (j, w) ∷ m
    else if bytes_lt j k
    then (j, w) ∷ emplace k v m
    else (j, w) ∷ m

-- All keys are above `k`.
abbrev Above : Bytes → TextMap → Type 0
Above k [] = Unit {0}
Above k ((j, w) ∷ m) = (bytes_lt k j ≡ true) × Above k m

-- The keys rise, so they are distinct.
abbrev pub IsSorted : TextMap → Type 0
IsSorted [] = Unit {0}
IsSorted ((k, v) ∷ m) = Above k m × IsSorted m

Above-trans : (i j : Bytes) (m : TextMap) → bytes_lt i j ≡ true → Above j m → Above i m
Above-trans i j [] h a = tt
Above-trans i j ((k, v) ∷ m) h a = (bytes_lt_trans i j k h a.0, Above-trans i j m h a.1)

pub lookup-Above : (k : Bytes) (m : TextMap) → Above k m → lookup k m ≡ none
unfolding lookup
lookup-Above k [] a = refl
lookup-Above k ((j, v) ∷ m) a = ground (arith, bytes_lt-ne k j, lookup-Above k m)

Above-emplace :
    (i k v : Bytes) (m : TextMap) → bytes_lt i k ≡ true → Above i m → Above i (emplace k v m)
unfolding emplace
Above-emplace i k v [] h a = (h, tt)
Above-emplace i k v ((j, w) ∷ m) h a = ground (arith, Above-emplace i k v m)

pub emplace-IsSorted : (k v : Bytes) (m : TextMap) → IsSorted m → IsSorted (emplace k v m)
unfolding emplace
emplace-IsSorted k v [] s = (tt, tt)
emplace-IsSorted k v ((j, w) ∷ m) s =
    ground (arith, emplace-IsSorted k v m, Above-emplace j k v m, Above-trans k j m)

abbrev pub or_else : Option Bytes → Option Bytes → Option Bytes
or_else none o = o
or_else (some v) o = some v

-- The first value that a key is given stays.
pub lookup-emplace :
    (i k v : Bytes) (m : TextMap)
    → IsSorted m
    → lookup i (emplace k v m) ≡ or_else (lookup i m) (if bytes_eq i k then some v else none)
unfolding lookup emplace
lookup-emplace i k v [] s = refl
lookup-emplace i k v ((j, w) ∷ m) s = ground (
  arith,
  lookup-emplace i k v m,
  bytes_eq_iff i k,
  bytes_eq_iff i j,
  bytes_lt-ne k j,
  bytes_lt_connected k j,
  lookup-Above k m,
  Above-trans k j m,
)
