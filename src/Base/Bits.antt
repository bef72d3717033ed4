-- ===== src/Base/Bits.antt =====
-- Laws of `bit_xor` at variables, from its recursion on binary digits.
use Prim.Native.Nat.{
  digits, bit_and-bitwise, bit_or-bitwise, bit_xor-bitwise, differ, min, max, bit_or,
}
use Prim.Native.Nat.{ℕ, zero, suc, ◌+◌, ◌*◌, ◌/◌, ◌%◌, ◌^◌, ◌≤◌, ◌<◌, bit_xor, bit_and}
use mathlib.Core.Path.{◌≡◌, refl, sym, ap, ◌∙◌}
use mathlib.Core.WellFounded.{Acc, WellFounded, induction}
use native.Mathlib.Nat.{
  mod-lt, mod-eq_of_lt, div-add-mod, add-mul-mod_self_left, one-le-pow, pow-suc, le_refl, div-one,
  div-div-eq-div-mul,
}
use native.Mathlib.Omega.{arith}

acc_below : (k n : ℕ) → n < k → Acc ◌<◌ n
acc_below zero n h = absurd (omega arith)
acc_below (suc k) n h = Acc.intro n (λ m hm. acc_below k m (omega arith))

pub lt_wf : WellFounded ◌<◌
lt_wf = record { apply = λ n. acc_below (suc n) n (le_refl _) }

-- Properties of a number follow from those of its half.
pub halving_induction {ℓ} : (P : ℕ → Type ℓ) → P 0 → ((n : ℕ) → P (n / 2) → P n) → (n : ℕ) → P n
halving_induction P base step n = induction lt_wf {C = P} n go
  where
    go : (k : ℕ) → ((m : ℕ) → m < k → P m) → P k
    go zero ih = base
    go (suc k) ih = step (suc k) (ih (suc k / 2) (omega arith))

-- An operation on binary digits runs on fuel; at `a` any fuel from `a` on gives one result.
module _ (rest : ℕ → ℕ) (join : ℕ → ℕ → ℕ) where
  abbrev SameDigits : ℕ → Type 0
  SameDigits a =
      (b fuel more : ℕ)
      → a ≤ fuel
      → a ≤ more
      → digits rest join fuel a b ≡ digits rest join more a b

  SameDigits-zero : SameDigits 0
  SameDigits-zero b zero zero h k = refl
  SameDigits-zero b zero (suc more) h k = refl
  SameDigits-zero b (suc fuel) zero h k = refl
  SameDigits-zero b (suc fuel) (suc more) h k = refl

  SameDigits-half : (a : ℕ) → SameDigits (a / 2) → SameDigits a
  SameDigits-half zero ih b fuel more h k = SameDigits-zero b fuel more h k
  SameDigits-half (suc a) ih b (suc fuel) (suc more) h k =
      ap (λ (t : ℕ). t * 2 + join (suc a % 2) (b % 2))
        (ih (b / 2) fuel more (omega arith) (omega arith))
  SameDigits-half (suc a) ih b zero more h k = absurd (omega arith)
  SameDigits-half (suc a) ih b (suc fuel) zero h k = absurd (omega arith)

  same_digits : (a : ℕ) → SameDigits a
  same_digits = halving_induction SameDigits SameDigits-zero SameDigits-half

  -- The lowest digit of a native operation that means such a recursion.
  lowest_digit :
      (op : ℕ → ℕ → ℕ)
      → ((x y : ℕ) → op x y ≡ digits rest join x x y)
      → ((y : ℕ) → rest y ≡ rest (y / 2) * 2 + join 0 (y % 2))
      → (a b : ℕ) → op a b ≡ op (a / 2) (b / 2) * 2 + join (a % 2) (b % 2)
  lowest_digit op means none_left zero b = rw (means 0 b, means 0 (b / 2)) (none_left b)
  lowest_digit op means none_left (suc a) b =
      means (suc a) b
      ∙ ap (λ (t : ℕ). t * 2 + join (suc a % 2) (b % 2))
          (same_digits (suc a / 2) (b / 2) a (suc a / 2) (omega arith) (le_refl _)
            ∙ sym (means (suc a / 2) (b / 2)))

-- On one binary digit.
abbrev bit_sum : ℕ → ℕ → ℕ
bit_sum a b = (a + b) % 2

differ_bits : (a b : ℕ) → a < 2 → b < 2 → differ a b ≡ bit_sum a b
differ_bits zero b p q = omega arith
differ_bits (suc zero) zero p q = refl
differ_bits (suc zero) (suc zero) p q = refl
differ_bits (suc zero) (suc (suc b)) p q = absurd (omega arith)
differ_bits (suc (suc a)) b p q = absurd (omega arith)

pub bit_xor_step : (a b : ℕ) → bit_xor a b ≡ bit_xor (a / 2) (b / 2) * 2 + (a + b) % 2
bit_xor_step a b =
    lowest_digit (λ y. y) differ bit_xor bit_xor-bitwise (λ y. omega (arith, differ_bits 0 (y % 2)))
      a b
    ∙ omega (arith, differ_bits (a % 2) (b % 2) (omega arith) (omega arith))

pub zero-bit_xor : (b : ℕ) → bit_xor 0 b ≡ b
zero-bit_xor b = bit_xor-bitwise 0 b

pub bit_xor_self : (a : ℕ) → bit_xor a a ≡ 0
bit_xor_self =
    halving_induction (λ a. bit_xor a a ≡ 0) refl (λ n ih. omega (arith, bit_xor_step n n))

pub bit_xor-zero : (a : ℕ) → bit_xor a 0 ≡ a
bit_xor-zero =
    halving_induction (λ a. bit_xor a 0 ≡ a) refl (λ n ih. omega (arith, bit_xor_step n 0))

pub bit_xor_comm : (a b : ℕ) → bit_xor a b ≡ bit_xor b a
bit_xor_comm =
    halving_induction (λ a. (b : ℕ) → bit_xor a b ≡ bit_xor b a)
      (λ b. omega (arith, zero-bit_xor b, bit_xor-zero b))
      (λ n ih b. omega (arith, bit_xor_step n b, bit_xor_step b n, ih (b / 2)))

pub bit_xor-half : (a b : ℕ) → bit_xor a b / 2 ≡ bit_xor (a / 2) (b / 2)
bit_xor-half a b = omega (arith, bit_xor_step a b)

pub bit_xor-parity : (a b : ℕ) → bit_xor a b % 2 ≡ (a + b) % 2
bit_xor-parity a b = omega (arith, bit_xor_step a b)

pub bit_xor_assoc : (a b c : ℕ) → bit_xor (bit_xor a b) c ≡ bit_xor a (bit_xor b c)
bit_xor_assoc =
    halving_induction (λ a. (b c : ℕ) → bit_xor (bit_xor a b) c ≡ bit_xor a (bit_xor b c))
      (λ b c.
        omega (arith, zero-bit_xor (bit_xor b c), ap (λ (t : ℕ). bit_xor t c) (zero-bit_xor b)))
      step
  where
    step :
        (n : ℕ)
        → ((b c : ℕ) → bit_xor (bit_xor (n / 2) b) c ≡ bit_xor (n / 2) (bit_xor b c))
        → (b c : ℕ) → bit_xor (bit_xor n b) c ≡ bit_xor n (bit_xor b c)
    step n ih b c = omega (
      arith,
      bit_xor_step (bit_xor n b) c,
      bit_xor_step n (bit_xor b c),
      ap (λ (t : ℕ). bit_xor t (c / 2)) (bit_xor-half n b),
      ap (bit_xor (n / 2)) (bit_xor-half b c),
      bit_xor-parity n b,
      bit_xor-parity b c,
      ih (b / 2) (c / 2),
    )

pub bit_xor_cancel : (a b : ℕ) → bit_xor a (bit_xor a b) ≡ b
bit_xor_cancel a b =
    omega (arith, bit_xor_assoc a a b, ap (λ (t : ℕ). bit_xor t b) (bit_xor_self a), zero-bit_xor b)

-- Exclusive or by a fixed number can be undone.
pub bit_xor-injective : (a b c : ℕ) → bit_xor a b ≡ bit_xor a c → b ≡ c
bit_xor-injective a b c h = omega (arith, bit_xor_cancel a b, bit_xor_cancel a c, ap (bit_xor a) h)

-- It keeps a width.
pub bit_xor-lt : (k a b : ℕ) → a < 2 ^ k → b < 2 ^ k → bit_xor a b < 2 ^ k
bit_xor-lt zero zero b p q = omega (arith, zero-bit_xor b)
bit_xor-lt zero (suc a) b p q = absurd (omega arith)
bit_xor-lt (suc k) a b p q = omega (
  arith,
  bit_xor_step a b,
  pow-suc 2 k,
  bit_xor-lt k (a / 2) (b / 2) (omega (arith, pow-suc 2 k)) (omega (arith, pow-suc 2 k)),
)

pow-suc_left : (k : ℕ) → 2 ^ suc k ≡ 2 * 2 ^ k
pow-suc_left k = omega (arith, pow-suc 2 k)

double_field : (k q : ℕ) → 2 * (q * 2 ^ k) ≡ q * 2 ^ suc k
double_field k q = omega (arith, ap (λ (p : ℕ). q * p) (pow-suc_left k))

half_shift : (k a : ℕ) → a / 2 ^ suc k ≡ a / 2 / 2 ^ k
half_shift k a = ap (λ (t : ℕ). a / t) (pow-suc_left k) ∙ sym (div-div-eq-div-mul a 2 (2 ^ k))

-- Shifting right distributes over exclusive or.
pub bit_xor-shift : (k a b : ℕ) → bit_xor a b / 2 ^ k ≡ bit_xor (a / 2 ^ k) (b / 2 ^ k)
bit_xor-shift zero a b = simp div-one
bit_xor-shift (suc k) a b =
    rw (half_shift k (bit_xor a b), half_shift k a, half_shift k b, bit_xor-half a b)
      (bit_xor-shift k (a / 2) (b / 2))

-- Exclusive or of disjoint fields is their sum.
pub bit_xor_fields : (k q r : ℕ) → r < 2 ^ k → bit_xor r (q * 2 ^ k) ≡ q * 2 ^ k + r
bit_xor_fields zero q zero fits = omega (arith, zero-bit_xor (q * 1))
bit_xor_fields zero q (suc r) fits = absurd (omega arith)
bit_xor_fields (suc k) q r fits = ground (
  arith,
  double_field k q,
  bit_xor_fields k q (r / 2) (omega (arith, pow-suc_left k)),
  bit_xor_step r (q * 2 ^ suc k),
  pow-suc_left k,
)

bit_and_step : (a b : ℕ) → bit_and a b ≡ bit_and (a / 2) (b / 2) * 2 + min (a % 2) (b % 2)
bit_and_step = lowest_digit (λ y. 0) min bit_and bit_and-bitwise (λ y. omega arith)

-- Masks of ones.
bit_and-zero : (a : ℕ) → bit_and a 0 ≡ 0
bit_and-zero =
    halving_induction (λ a. bit_and a 0 ≡ 0) refl (λ n ih. omega (arith, bit_and_step n 0))

pub bit_and-one : (a : ℕ) → bit_and a 1 ≡ a % 2
bit_and-one a = omega (arith, bit_and_step a 1, bit_and-zero (a / 2))

-- `2 ^ k - 1`, by its binary digits.
mask : ℕ → ℕ
mask zero = 0
mask (suc k) = 2 * mask k + 1

mod-double : (q a : ℕ) → 0 < q → a % (2 * q) ≡ (a / 2) % q * 2 + a % 2
mod-double q a h =
    let r = (a / 2) % q * 2 + a % 2 in
    let whole : a ≡ r + 2 * q * (a / 2 / q) = omega (arith, div-add-mod (a / 2) q) in
    let low : r < 2 * q = omega (arith, mod-lt (a / 2) h) in
    ap (λ (t : ℕ). t % (2 * q)) whole
    ∙ add-mul-mod_self_left r (2 * q) (a / 2 / q)
    ∙ mod-eq_of_lt low

bit_and-mask : (k a : ℕ) → bit_and a (mask k) ≡ a % 2 ^ k
unfolding mask
bit_and-mask zero a = omega (arith, bit_and-zero a)
bit_and-mask (suc k) a =
    let halves : (2 * mask k + 1) / 2 ≡ mask k = omega arith in
    bit_and_step a (2 * mask k + 1)
    ∙ rw halves (
        omega (
          arith,
          bit_and-mask k (a / 2),
          ap (λ (t : ℕ). a % t) (pow-suc_left k),
          mod-double (2 ^ k) a (one-le-pow k 2 (omega arith)),
        ))

pub bit_and_byte : (a : ℕ) → bit_and a 255 ≡ a % 256
unfolding mask
bit_and_byte a = bit_and-mask 8 a

bit_or_step : (a b : ℕ) → bit_or a b ≡ bit_or (a / 2) (b / 2) * 2 + max (a % 2) (b % 2)
bit_or_step = lowest_digit (λ y. y) max bit_or bit_or-bitwise (λ y. omega arith)

-- A union of bits is empty only if both parts are.
pub bit_or-eq-zero : (a b : ℕ) → bit_or a b ≡ 0 → (a ≡ 0) × (b ≡ 0)
bit_or-eq-zero =
    halving_induction (λ a. (b : ℕ) → bit_or a b ≡ 0 → (a ≡ 0) × (b ≡ 0))
      (λ b h. (refl, omega (arith, bit_or-bitwise 0 b)))
      (λ n ih b h.
        let halves = ih (b / 2) (omega (arith, bit_or_step n b)) in
        (omega (arith, bit_or_step n b, halves.0), omega (arith, bit_or_step n b, halves.1)))

pub bit_xor-eq-zero : (a b : ℕ) → bit_xor a b ≡ 0 → a ≡ b
bit_xor-eq-zero a b h = omega (arith, bit_xor_cancel a b, ap (bit_xor a) h, bit_xor-zero a)
