-- ===== src/Crc.antt =====
-- src/common/Hash.cc: the table-driven CRC-32 of a command and its eight hex digits. Words of
-- `uint32_t` are numbers below 2 ^ 32; shifts to the right are divisions.
pub mod Table
pub mod Words
pub mod Detect
pub mod Hex
mod Tests
use rem_svc.Base.{
  ℕ, zero, suc, ◌+◌, ◌-◌, ◌/◌, ◌%◌, bit_and, bit_xor, List, [], ◌∷◌, Bytes, ltb, ◌==◌,
  if◌then◌else◌,
}

abbrev pub polynomial : ℕ
polynomial = 0xedb88320

abbrev pub all_ones : ℕ
all_ones = 0xffff_ffff

-- `c = (c & 1u) ? (0xEDB88320u ^ (c >> 1)) : (c >> 1)`
pub crc_round : ℕ → ℕ
crc_round c = if bit_and c 1 == 0 then c / 2 else bit_xor polynomial (c / 2)

-- The inner loop of the table's construction.
pub rounds : ℕ → ℕ → ℕ
rounds zero c = c
rounds (suc k) c = rounds k (crc_round c)

-- The outer loop: the entries for `i`, `i + 1`, …, `count` of them.
pub table_entries : ℕ → ℕ → List ℕ
table_entries zero i = []
table_entries (suc count) i = rounds 8 i ∷ table_entries count (suc i)

pub table : List ℕ
table = table_entries 256 0

-- `t[i]`, with 0 out of range, which no index of the program is.
pub entry_at : List ℕ → ℕ → ℕ
entry_at [] i = 0
entry_at (c ∷ cs) zero = c
entry_at (c ∷ cs) (suc i) = entry_at cs i

-- `table[(crc ^ b) & 0xFFu] ^ (crc >> 8)`
pub update : ℕ → ℕ → ℕ
update crc b = bit_xor (entry_at table (bit_and (bit_xor crc b) 255)) (crc / 256)

pub crc_loop : ℕ → Bytes → ℕ
crc_loop crc [] = crc
crc_loop crc (b ∷ bs) = crc_loop (update crc b) bs

pub crc32 : Bytes → ℕ
unfolding crc_loop update table table_entries entry_at rounds crc_round
crc32 bs = bit_xor (crc_loop all_ones bs) all_ones

-- One lowercase digit of `%08x`.
pub hex_digit : ℕ → ℕ
hex_digit d = if ltb d 10 then b'0' + d else b'a' + (d - 10)

-- The `width` lowest hex digits of `n`, in front of `out`.
pub hex_digits : ℕ → ℕ → Bytes → Bytes
hex_digits zero n out = out
hex_digits (suc width) n out = hex_digits width (n / 16) (hex_digit (n % 16) ∷ out)

unfoldable pub crc32_hex : Bytes → Bytes
unfolding hex_digits hex_digit crc32
crc32_hex bs = hex_digits 8 (crc32 bs) []
