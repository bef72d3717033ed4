-- ===== src/Base/Order.antt =====
-- The order of `std::less<std::string>` is a strict total order.
use mathlib.Core.Path.{◌≡◌, refl}
use mathlib.Core.Bool.{true, false}
use mathlib.Core.List.{[], ◌∷◌}
use native.Mathlib.Omega.{arith}
use rem_svc.Base.Text.{Bytes, bytes_lt, bytes_eq, bytes_eq_iff}

bytes_lt_irrefl : (xs : Bytes) → bytes_lt xs xs ≡ false
unfolding bytes_lt
bytes_lt_irrefl [] = refl
bytes_lt_irrefl (x ∷ xs) = ground (arith, bytes_lt_irrefl xs)

pub bytes_lt_trans :
    (xs ys zs : Bytes) → bytes_lt xs ys ≡ true → bytes_lt ys zs ≡ true → bytes_lt xs zs ≡ true
unfolding bytes_lt
bytes_lt_trans [] [] zs p q = cc
bytes_lt_trans [] (y ∷ ys) [] p q = cc
bytes_lt_trans [] (y ∷ ys) (z ∷ zs) p q = refl
bytes_lt_trans (x ∷ xs) [] zs p q = cc
bytes_lt_trans (x ∷ xs) (y ∷ ys) [] p q = cc
bytes_lt_trans (x ∷ xs) (y ∷ ys) (z ∷ zs) p q = ground (arith, bytes_lt_trans xs ys zs)

pub bytes_lt_connected : (xs ys : Bytes) → bytes_lt xs ys ≡ false → bytes_lt ys xs ≡ false → xs ≡ ys
unfolding bytes_lt
bytes_lt_connected [] [] p q = refl
bytes_lt_connected [] (y ∷ ys) p q = cc
bytes_lt_connected (x ∷ xs) [] p q = cc
bytes_lt_connected (x ∷ xs) (y ∷ ys) p q = ground (arith, bytes_lt_connected xs ys)

pub bytes_lt-ne : (xs ys : Bytes) → bytes_lt xs ys ≡ true → bytes_eq xs ys ≡ false
bytes_lt-ne xs ys h = ground (arith, bytes_eq_iff xs ys, bytes_lt_irrefl xs)

pub bytes_lt-ne' : (xs ys : Bytes) → bytes_lt xs ys ≡ true → bytes_eq ys xs ≡ false
bytes_lt-ne' xs ys h = ground (arith, bytes_eq_iff ys xs, bytes_lt_irrefl xs)
