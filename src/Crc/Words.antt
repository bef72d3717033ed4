-- ===== src/Crc/Words.antt =====
-- The checksum's register of src/common/Hash.cc stays a `uint32_t`.
use native.Mathlib.Nat.{div-eq_of_lt}
use rem_svc.Base.{
  ℕ, zero, suc, ◌/◌, ◌%◌, ◌^◌, ◌<◌, ◌≡◌, ap, ◌∙◌, bit_xor, ◌⊎◌, inl, inr, [], ◌∷◌, Bytes, IsBytes,
  arith,
}
use rem_svc.Base.Bits.{bit_xor-lt, bit_xor-shift}
use rem_svc.Crc.{polynomial, all_ones, crc_round, rounds}
use rem_svc.Crc.Table.{serial_loop, serial_crc32, crc_round_even, crc_round_odd, parity-cases}

abbrev pub IsWord : ℕ → Type 0
IsWord c = c < 2 ^ 32

-- The polynomial sets the top bit, a shift clears it.
pub top_bit_odd : (h : ℕ) → h < 2 ^ 31 → bit_xor polynomial h / 2 ^ 31 ≡ 1
top_bit_odd h p = bit_xor-shift 31 polynomial h ∙ ap (bit_xor 1) (div-eq_of_lt p)

pub crc_round-IsWord : (c : ℕ) → IsWord c → IsWord (crc_round c)
crc_round-IsWord c w = go (parity-cases c)
  where
    go : (c % 2 ≡ 0) ⊎ (c % 2 ≡ 1) → IsWord (crc_round c)
    go (inl e) = omega (arith, crc_round_even c e)
    go (inr e) =
        omega
          (arith, crc_round_odd c e, bit_xor-lt 32 polynomial (c / 2) (omega arith) (omega arith))

pub rounds-IsWord : (k c : ℕ) → IsWord c → IsWord (rounds k c)
unfolding rounds
rounds-IsWord zero c w = w
rounds-IsWord (suc k) c w = rounds-IsWord k (crc_round c) (crc_round-IsWord c w)

pub xor-IsWord : (a b : ℕ) → IsWord a → IsWord b → IsWord (bit_xor a b)
xor-IsWord = bit_xor-lt 32

pub serial_loop-IsWord : (c : ℕ) (bs : Bytes) → IsWord c → IsBytes bs → IsWord (serial_loop c bs)
unfolding serial_loop
serial_loop-IsWord c [] w h = w
serial_loop-IsWord c (b ∷ bs) w h =
    serial_loop-IsWord (rounds 8 (bit_xor c b)) bs
      (rounds-IsWord 8 _ (xor-IsWord c b w (omega (arith, h.0)))) h.1

pub serial_crc32-IsWord : (bs : Bytes) → IsBytes bs → IsWord (serial_crc32 bs)
unfolding serial_crc32
serial_crc32-IsWord bs h =
    xor-IsWord _ all_ones (serial_loop-IsWord all_ones bs (omega arith) h) (omega arith)
