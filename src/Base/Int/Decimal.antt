-- ===== src/Base/Int/Decimal.antt =====
-- Decimal texts can be read back.
use Prim.Native.Nat.{ℕ, zero, suc, ◌+◌, ◌-◌, ◌*◌, ◌/◌, ◌%◌, ◌<◌}
use mathlib.Core.Path.{◌≡◌, ◌∙◌, sym, ap}
use mathlib.Core.Logic.{◌≢◌, inl, inr}
use mathlib.Core.List.{[], ◌∷◌}
use native.Mathlib.Omega.{arith}
use rem_svc.Base.Bools.{ltb, Bool-cases, ltb→le}
use rem_svc.Base.Text.{Bytes}
use rem_svc.Base.Int.{ℤ, pos, negsuc, digits_loop, nat_text, int_text}

-- The number that a text of digits spells behind the digits of `acc`.
pub dec_value : ℕ → Bytes → ℕ
dec_value acc [] = acc
dec_value acc (c ∷ cs) = dec_value (acc * 10 + (c - b'0')) cs

dec_value-digits_loop :
    (fuel n : ℕ) (out : Bytes) → n < fuel → dec_value 0 (digits_loop fuel n out) ≡ dec_value n out
unfolding dec_value digits_loop
dec_value-digits_loop zero n out h = absurd (omega arith)
dec_value-digits_loop (suc fuel) n out h = elim (Bool-cases (ltb n 10)) [
  | inl small ↦ rw small (ap (λ (t : ℕ). dec_value t out) (omega arith))
  | inr large ↦ rw large (
      dec_value-digits_loop fuel (n / 10) ((b'0' + n % 10) ∷ out) (omega (arith, ltb→le n 10 large))
      ∙ ap (λ (t : ℕ). dec_value t out) (omega arith))
]

pub dec_value-nat_text : (n : ℕ) → dec_value 0 (nat_text n) ≡ n
unfolding nat_text dec_value
dec_value-nat_text n = dec_value-digits_loop (suc n) n [] (omega arith)

-- No number's text begins with a minus sign.
digits_loop-ne-minus :
    (fuel n : ℕ) (out rest : Bytes) → n < fuel → digits_loop fuel n out ≢ b'-' ∷ rest
unfolding digits_loop
digits_loop-ne-minus zero n out rest h = absurd (omega arith)
digits_loop-ne-minus (suc fuel) n out rest h = elim (Bool-cases (ltb n 10)) [
  | inl small ↦ rw small (λ e. ground (arith, e))
  | inr large ↦ rw large (
      digits_loop-ne-minus fuel (n / 10) ((b'0' + n % 10) ∷ out) rest
        (omega (arith, ltb→le n 10 large)))
]

nat_text-injective : (m n : ℕ) → nat_text m ≡ nat_text n → m ≡ n
nat_text-injective m n h = sym (dec_value-nat_text m) ∙ ap (dec_value 0) h ∙ dec_value-nat_text n

pub int_text-injective : (a b : ℤ) → int_text a ≡ int_text b → a ≡ b
unfolding int_text
int_text-injective (pos m) (pos n) h = ap pos (nat_text-injective m n h)
int_text-injective (pos m) (negsuc n) h =
    absurd (digits_loop-ne-minus (suc m) m [] _ (omega arith) h)
int_text-injective (negsuc m) (pos n) h =
    absurd (digits_loop-ne-minus (suc n) n [] _ (omega arith) (sym h))
int_text-injective (negsuc m) (negsuc n) h =
    ap negsuc (omega (arith, nat_text-injective (suc m) (suc n) (cc)))
