-- ===== src/Crc/Detect.antt =====
-- Which changes of a text the checksum of src/common/Hash.cc detects: the register's step can be
-- undone, and a window of four bytes is a word of the register's width.
use rem_svc.Base.{
  ℕ, zero, suc, ◌+◌, ◌*◌, ◌/◌, ◌%◌, ◌^◌, ◌<◌, ◌≤◌, ◌≡◌, refl, ap, ◌∙◌, sym, bit_xor, ◌⊎◌, inl, inr,
  [], ◌∷◌, ◌++◌, Bytes, IsBytes, All-append, length, arith,
}
use rem_svc.Base.Bits.{bit_xor-zero, bit_xor_comm, bit_xor_assoc, bit_xor-injective, bit_xor_fields}
use rem_svc.Crc.{polynomial, all_ones, crc_round, rounds, crc32_hex}
use rem_svc.Crc.Table.{
  serial_loop, serial_crc32, crc_round_even, crc_round_odd, parity-cases, rounds-bit_xor,
  rounds_shift, crc32-serial_crc32,
}
use rem_svc.Crc.Words.{
  IsWord, top_bit_odd, crc_round-IsWord, rounds-IsWord, xor-IsWord, serial_loop-IsWord,
}
use rem_svc.Crc.Hex.{crc32_hex-injective}
use Prim.Native.Nat.add
use native.Mathlib.Nat.{pow-suc, one-le-pow}

crc_round-injective : (a b : ℕ) → IsWord a → IsWord b → crc_round a ≡ crc_round b → a ≡ b
crc_round-injective a b wa wb h = go (parity-cases a) (parity-cases b)
  where
    odd_top : (c : ℕ) → IsWord c → c % 2 ≡ 1 → crc_round c / 2 ^ 31 ≡ 1
    odd_top c w e =
        ap (λ (t : ℕ). t / 2 ^ 31) (crc_round_odd c e) ∙ top_bit_odd (c / 2) (omega arith)

    go : (a % 2 ≡ 0) ⊎ (a % 2 ≡ 1) → (b % 2 ≡ 0) ⊎ (b % 2 ≡ 1) → a ≡ b
    go (inl x) (inl y) = omega (arith, crc_round_even a x, crc_round_even b y)
    go (inl x) (inr y) = absurd (omega (arith, crc_round_even a x, odd_top b wb y))
    go (inr x) (inl y) = absurd (omega (arith, crc_round_even b y, odd_top a wa x))
    go (inr x) (inr y) = omega (
      arith,
      bit_xor-injective polynomial (a / 2) (b / 2)
          (sym (crc_round_odd a x) ∙ h ∙ crc_round_odd b y),
    )

rounds-injective : (k a b : ℕ) → IsWord a → IsWord b → rounds k a ≡ rounds k b → a ≡ b
unfolding rounds
rounds-injective zero a b wa wb h = h
rounds-injective (suc k) a b wa wb h = crc_round-injective a b wa wb (
    rounds-injective k (crc_round a) (crc_round b) (crc_round-IsWord a wa) (crc_round-IsWord b wb)
      h)

-- Equal registers after the same text were equal before it.
serial_loop-injective :
    (a b : ℕ) (bs : Bytes)
    → IsWord a
    → IsWord b
    → IsBytes bs
    → serial_loop a bs ≡ serial_loop b bs
    → a ≡ b
unfolding serial_loop
serial_loop-injective a b [] wa wb hs h = h
serial_loop-injective a b (x ∷ bs) wa wb hs h = bit_xor-injective x a b (
    bit_xor_comm x a
    ∙ rounds-injective 8 _ _ xa xb (
        serial_loop-injective (rounds 8 (bit_xor a x)) (rounds 8 (bit_xor b x)) bs
          (rounds-IsWord 8 _ xa) (rounds-IsWord 8 _ xb) hs.1 h)
    ∙ bit_xor_comm b x)
  where
    xa : IsWord (bit_xor a x)
    xa = xor-IsWord a x wa (omega (arith, hs.0))

    xb : IsWord (bit_xor b x)
    xb = xor-IsWord b x wb (omega (arith, hs.0))

serial_loop-append :
    (c : ℕ) (p s : Bytes) → serial_loop c (p ++ s) ≡ serial_loop (serial_loop c p) s
unfolding serial_loop
serial_loop-append c [] s = refl
serial_loop-append c (x ∷ p) s = serial_loop-append (rounds 8 (bit_xor c x)) p s

-- The bytes of a window as one number, the first byte lowest.
window : Bytes → ℕ
window [] = 0
window (b ∷ bs) = window bs * 256 + b

eight_times : ℕ → ℕ
eight_times zero = 0
eight_times (suc n) = 8 + eight_times n

rounds-add : (j k c : ℕ) → rounds (j + k) c ≡ rounds k (rounds j c)
unfolding rounds
rounds-add zero k c = ap (λ (t : ℕ). rounds t c) (add.zero k)
rounds-add (suc j) k c = ap (λ (t : ℕ). rounds t c) (add.suc j k) ∙ rounds-add j k (crc_round c)

-- Taking the bytes in one by one is taking the whole window in and then making all the rounds.
serial_loop-window :
    (c : ℕ) (w : Bytes)
    → IsBytes w
    → serial_loop c w ≡ rounds (eight_times (length w)) (bit_xor c (window w))
unfolding serial_loop window eight_times rounds
serial_loop-window c [] h = sym (bit_xor-zero c)
serial_loop-window c (b ∷ w) h =
    serial_loop-window (rounds 8 (bit_xor c b)) w h.1
    ∙ ap (rounds (eight_times (length w))) (
        ap (bit_xor (rounds 8 (bit_xor c b))) (sym (rounds_shift (window w)))
        ∙ sym (rounds-bit_xor 8 (bit_xor c b) (window w * 256))
        ∙ ap (rounds 8) (
            bit_xor_assoc c b (window w * 256)
            ∙ ap (bit_xor c) (bit_xor_fields 8 (window w) b (omega (arith, h.0)))))
    ∙ sym (rounds-add 8 (eight_times (length w)) _)

window-lt : (n : ℕ) (w : Bytes) → IsBytes w → length w ≤ n → window w < 256 ^ n
unfolding window
window-lt n [] h p = one-le-pow n 256 (omega arith)
window-lt zero (b ∷ w) h p = absurd (omega arith)
window-lt (suc n) (b ∷ w) h p = omega (arith, window-lt n w h.1 (omega arith), pow-suc 256 n, h.0)

window-injective :
    (v w : Bytes) → IsBytes v → IsBytes w → length v ≡ length w → window v ≡ window w → v ≡ w
unfolding window
window-injective [] [] hv hw l h = refl
window-injective [] (y ∷ w) hv hw l h = absurd (omega arith)
window-injective (x ∷ v) [] hv hw l h = absurd (omega arith)
window-injective (x ∷ v) (y ∷ w) hv hw l h = cc (
  window-injective v w hv.1 hw.1 (omega arith) (omega (arith, hv.0, hw.0)),
  let e : x ≡ y = omega (arith, hv.0, hw.0) in e,
)

window-IsWord : (w : Bytes) → IsBytes w → length w ≤ 4 → IsWord (window w)
window-IsWord w h p = window-lt 4 w h p

module _ (p v w s : Bytes) (hp : IsBytes p) (hv : IsBytes v) (hw : IsBytes w) (hs : IsBytes s)
    (same : length v ≡ length w) (short : length v ≤ 4) where
  serial_crc32-window : serial_crc32 (p ++ (v ++ s)) ≡ serial_crc32 (p ++ (w ++ s)) → v ≡ w
  unfolding serial_crc32
  serial_crc32-window h = window-injective v w hv hw same (
      bit_xor-injective c _ _ (
        rounds-injective (eight_times (length v)) _ _ (xor-IsWord c _ wc (window-IsWord v hv short))
          (xor-IsWord c _ wc (window-IsWord w hw (omega arith)))
          (sym (serial_loop-window c v hv)
            ∙ middle
            ∙ serial_loop-window c w hw
            ∙ ap (λ (t : ℕ). rounds (eight_times t) (bit_xor c (window w))) (sym same))))
    where
      c : ℕ
      c = serial_loop all_ones p

      wc : IsWord c
      wc = serial_loop-IsWord all_ones p (omega arith) hp

      whole : serial_loop all_ones (p ++ (v ++ s)) ≡ serial_loop all_ones (p ++ (w ++ s))
      whole = bit_xor-injective all_ones _ _ (bit_xor_comm all_ones _ ∙ h ∙ bit_xor_comm _ all_ones)

      split : (x : Bytes) → serial_loop all_ones (p ++ (x ++ s)) ≡ serial_loop (serial_loop c x) s
      split x = serial_loop-append all_ones p (x ++ s) ∙ serial_loop-append c x s

      middle : serial_loop c v ≡ serial_loop c w
      middle =
          serial_loop-injective _ _ s (serial_loop-IsWord c v wc hv) (serial_loop-IsWord c w wc hw)
            hs (sym (split v) ∙ whole ∙ split w)

  -- Two texts of bytes that differ only in a window of at most four bytes, at the same place and of
  -- the same length, have different hash texts: equal hash texts force equal windows.
  pub crc32_hex-window : crc32_hex (p ++ (v ++ s)) ≡ crc32_hex (p ++ (w ++ s)) → v ≡ w
  crc32_hex-window h = serial_crc32-window (
      sym (crc32-serial_crc32 _ (bytes v hv))
      ∙ crc32_hex-injective _ _ (bytes v hv) (bytes w hw) h
      ∙ crc32-serial_crc32 _ (bytes w hw))
    where
      bytes : (x : Bytes) → IsBytes x → IsBytes (p ++ (x ++ s))
      bytes x hx = All-append _ p (x ++ s) hp (All-append _ x s hx hs)
