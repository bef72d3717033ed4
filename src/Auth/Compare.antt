-- ===== src/Auth/Compare.antt =====
-- `constTimeEqual` of src/server/AuthInterceptor.cc decides equality.
use Prim.Native.Nat.{bit_or}
use rem_svc.Base.{
  ℕ, [], ◌∷◌, true, false, Bytes, length, bytes_eq, bytes_eq_iff, bit_xor, ◌≡◌, ◌≢◌, refl, ap, ◌∙◌,
  arith, Bool-cases, inl, inr,
}
use rem_svc.Base.Bits.{bit_or-eq-zero, bit_xor-eq-zero, bit_xor_self}
use rem_svc.Auth.{diff_loop, const_time_equal}

diff_loop-eq-zero :
    (a b : Bytes) (d : ℕ) → length a ≡ length b → diff_loop a b d ≡ 0 → (d ≡ 0) × (a ≡ b)
unfolding diff_loop
diff_loop-eq-zero [] [] d l h = (h, refl)
diff_loop-eq-zero [] (y ∷ b) d l h = absurd (omega arith)
diff_loop-eq-zero (x ∷ a) [] d l h = absurd (omega arith)
diff_loop-eq-zero (x ∷ a) (y ∷ b) d l h =
    let rest = diff_loop-eq-zero a b (bit_or d (bit_xor x y)) (omega arith) h in
    let here = bit_or-eq-zero d (bit_xor x y) rest.0 in
    (here.0, cc (rest.1, bit_xor-eq-zero x y here.1))

diff_loop_self : (a : Bytes) → diff_loop a a 0 ≡ 0
unfolding diff_loop
diff_loop_self [] = refl
diff_loop_self (x ∷ a) =
    ap (λ (d : ℕ). diff_loop a a (bit_or 0 d)) (bit_xor_self x) ∙ diff_loop_self a

-- On every two strings the constant-time comparison gives what `==` gives.
pub const_time_equal-bytes_eq : (a b : Bytes) → const_time_equal a b ≡ bytes_eq a b
const_time_equal-bytes_eq a b = elim (Bool-cases (bytes_eq a b)) [
  | inl e ↦ rw ((bytes_eq_iff a b).0 e, (bytes_eq_iff b b).1 refl) (self b)
  | inr e ↦ rw e (differs (λ p. cc (e, (bytes_eq_iff a b).1 p)))
]
  where
    self : (c : Bytes) → const_time_equal c c ≡ true
    self c = unfold const_time_equal in ground (arith, diff_loop_self c)

    differs : a ≢ b → const_time_equal a b ≡ false
    differs ne = unfold const_time_equal in ground (arith, diff_loop-eq-zero a b 0)
