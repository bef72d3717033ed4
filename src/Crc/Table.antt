-- ===== src/Crc/Table.antt =====
-- The table-driven loop of src/common/Hash.cc against the CRC taken one bit at a time.
use rem_svc.Base.{
  ℕ, zero, suc, ◌+◌, ◌*◌, ◌/◌, ◌%◌, ◌<◌, ◌≡◌, refl, ap, ◌∙◌, sym, bit_and, bit_xor, [], ◌∷◌, Bytes,
  IsBytes, arith, inl, inr, ◌⊎◌,
}
use rem_svc.Base.Bits.{
  bit_xor-zero, bit_xor_comm, bit_xor_assoc, bit_xor_cancel, bit_xor-half, bit_xor-parity,
  bit_xor-shift, bit_xor_fields, bit_and-one, bit_and_byte,
}
use rem_svc.Crc.{
  polynomial, all_ones, crc_round, rounds, table_entries, table, entry_at, update, crc_loop, crc32,
}

-- The reference: the register takes a byte into its low bits, then makes eight rounds.
unfoldable pub serial_loop : ℕ → Bytes → ℕ
serial_loop crc [] = crc
serial_loop crc (b ∷ bs) = serial_loop (rounds 8 (bit_xor crc b)) bs

unfoldable pub serial_crc32 : Bytes → ℕ
serial_crc32 bs = bit_xor (serial_loop all_ones bs) all_ones

pub crc_round_even : (c : ℕ) → c % 2 ≡ 0 → crc_round c ≡ c / 2
unfolding crc_round
crc_round_even c h = ground (arith, bit_and-one c)

pub crc_round_odd : (c : ℕ) → c % 2 ≡ 1 → crc_round c ≡ bit_xor polynomial (c / 2)
unfolding crc_round
crc_round_odd c h = ground (arith, bit_and-one c)

pub parity-cases : (c : ℕ) → (c % 2 ≡ 0) ⊎ (c % 2 ≡ 1)
parity-cases c = omega arith

xor_inner : (p a b : ℕ) → bit_xor (bit_xor p a) (bit_xor p b) ≡ bit_xor a b
xor_inner p a b =
    bit_xor_assoc p a (bit_xor p b)
    ∙ ap (bit_xor p) (sym (bit_xor_assoc a p b) ∙ ap (λ (t : ℕ). bit_xor t b) (bit_xor_comm a p))
    ∙ ap (bit_xor p) (bit_xor_assoc p a b)
    ∙ bit_xor_cancel p (bit_xor a b)

xor_outer : (p a b : ℕ) → bit_xor a (bit_xor p b) ≡ bit_xor p (bit_xor a b)
xor_outer p a b =
    sym (bit_xor_assoc a p b) ∙ ap (λ (t : ℕ). bit_xor t b) (bit_xor_comm a p) ∙ bit_xor_assoc p a b

-- A round is linear.
pub crc_round-bit_xor : (a b : ℕ) → crc_round (bit_xor a b) ≡ bit_xor (crc_round a) (crc_round b)
crc_round-bit_xor a b = go (parity-cases a) (parity-cases b)
  where
    p : ℕ
    p = polynomial

    go :
        (a % 2 ≡ 0) ⊎ (a % 2 ≡ 1)
        → (b % 2 ≡ 0) ⊎ (b % 2 ≡ 1)
        → crc_round (bit_xor a b) ≡ bit_xor (crc_round a) (crc_round b)
    go (inl x) (inl y) =
        rw (crc_round_even a x, crc_round_even b y)
          (crc_round_even _ (omega (arith, bit_xor-parity a b)) ∙ bit_xor-half a b)
    go (inl x) (inr y) =
        rw (crc_round_even a x, crc_round_odd b y)
          (crc_round_odd _ (omega (arith, bit_xor-parity a b))
            ∙ ap (bit_xor p) (bit_xor-half a b)
            ∙ sym (xor_outer p (a / 2) (b / 2)))
    go (inr x) (inl y) =
        rw (crc_round_odd a x, crc_round_even b y)
          (crc_round_odd _ (omega (arith, bit_xor-parity a b))
            ∙ ap (bit_xor p) (bit_xor-half a b)
            ∙ sym (bit_xor_assoc p (a / 2) (b / 2)))
    go (inr x) (inr y) =
        rw (crc_round_odd a x, crc_round_odd b y)
          (crc_round_even _ (omega (arith, bit_xor-parity a b))
            ∙ bit_xor-half a b
            ∙ sym (xor_inner p (a / 2) (b / 2)))

pub rounds-bit_xor : (k a b : ℕ) → rounds k (bit_xor a b) ≡ bit_xor (rounds k a) (rounds k b)
unfolding rounds
rounds-bit_xor zero a b = refl
rounds-bit_xor (suc k) a b =
    ap (rounds k) (crc_round-bit_xor a b) ∙ rounds-bit_xor k (crc_round a) (crc_round b)

-- On a number with eight zeros below, eight rounds are a shift.
pub rounds_shift : (q : ℕ) → rounds 8 (q * 256) ≡ q
unfolding rounds
rounds_shift q =
    ap (rounds 7) (halve 128)
    ∙ ap (rounds 6) (halve 64)
    ∙ ap (rounds 5) (halve 32)
    ∙ ap (rounds 4) (halve 16)
    ∙ ap (rounds 3) (halve 8)
    ∙ ap (rounds 2) (halve 4)
    ∙ ap (rounds 1) (halve 2)
    ∙ (halve 1 ∙ omega arith)
  where
    halve : (m : ℕ) → crc_round (q * (2 * m)) ≡ q * m
    halve m = crc_round_even (q * (2 * m)) (omega arith) ∙ omega arith

-- The high part of a word only shifts, the low byte selects the table's entry.
rounds_split : (x : ℕ) → rounds 8 x ≡ bit_xor (rounds 8 (x % 256)) (x / 256)
rounds_split x =
    ap (rounds 8) (omega (arith, bit_xor_fields 8 (x / 256) (x % 256) (omega arith)))
    ∙ rounds-bit_xor 8 (x % 256) (x / 256 * 256)
    ∙ ap (bit_xor (rounds 8 (x % 256))) (rounds_shift (x / 256))

entry_at-table_entries :
    (count i j : ℕ) → j < count → entry_at (table_entries count i) j ≡ rounds 8 (i + j)
unfolding table_entries entry_at
entry_at-table_entries zero i j h = absurd (omega arith)
entry_at-table_entries (suc count) i zero h = ap (rounds 8) (omega arith)
entry_at-table_entries (suc count) i (suc j) h =
    entry_at-table_entries count (suc i) j (omega arith) ∙ ap (rounds 8) (omega arith)

entry_at-table : (j : ℕ) → j < 256 → entry_at table j ≡ rounds 8 j
unfolding table
entry_at-table j h = entry_at-table_entries 256 0 j h ∙ ap (rounds 8) (omega arith)

-- One table step is eight rounds on the register that has taken the byte in.
pub update-rounds : (crc b : ℕ) → b < 256 → update crc b ≡ rounds 8 (bit_xor crc b)
unfolding update
update-rounds crc b h = sym (
    rounds_split (bit_xor crc b)
    ∙ ap (λ (t : ℕ). bit_xor t (bit_xor crc b / 256))
        (sym (
          ap (entry_at table) (bit_and_byte (bit_xor crc b))
          ∙ entry_at-table (bit_xor crc b % 256) (omega arith)))
    ∙ ap (bit_xor (entry_at table (bit_and (bit_xor crc b) 255)))
        (bit_xor-shift 8 crc b ∙ ap (bit_xor (crc / 256)) (omega arith) ∙ bit_xor-zero (crc / 256)))

pub crc_loop-serial_loop :
    (crc : ℕ) (bs : Bytes) → IsBytes bs → crc_loop crc bs ≡ serial_loop crc bs
unfolding crc_loop serial_loop
crc_loop-serial_loop crc [] h = refl
crc_loop-serial_loop crc (b ∷ bs) h =
    crc_loop-serial_loop (update crc b) bs h.1
    ∙ ap (λ (c : ℕ). serial_loop c bs) (update-rounds crc b h.0)

-- For every text of bytes the table-driven checksum is the CRC computed one bit at a time.
pub crc32-serial_crc32 : (bs : Bytes) → IsBytes bs → crc32 bs ≡ serial_crc32 bs
unfolding crc32 serial_crc32
crc32-serial_crc32 bs h = ap (λ (c : ℕ). bit_xor c all_ones) (crc_loop-serial_loop all_ones bs h)
