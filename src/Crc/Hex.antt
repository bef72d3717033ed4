-- ===== src/Crc/Hex.antt =====
-- The text of the checksum (`snprintf("%08x")` of src/common/Hash.cc).
use native.Mathlib.Nat.{pow-suc}
use rem_svc.Base.{
  ℕ, zero, suc, ◌+◌, ◌-◌, ◌*◌, ◌/◌, ◌%◌, ◌^◌, ◌<◌, ◌≤◌, ◌≡◌, ap, ◌∙◌, sym, [], ◌∷◌, Bytes, IsBytes,
  All, length, ltb, arith, if◌then◌else◌, ◌⊎◌,
}
use rem_svc.Crc.{crc32, hex_digit, hex_digits, crc32_hex}
use rem_svc.Crc.Table.{crc32-serial_crc32}
use rem_svc.Crc.Words.{serial_crc32-IsWord}

-- The value of a lowercase hex digit, and of a text of such digits behind the digits of `acc`.
digit_value : ℕ → ℕ
digit_value c = if ltb c b'a' then c - b'0' else c - b'a' + 10

unfoldable pub hex_value : ℕ → Bytes → ℕ
unfolding digit_value
hex_value acc [] = acc
hex_value acc (c ∷ cs) = hex_value (acc * 16 + digit_value c) cs

digit_value-hex_digit : (d : ℕ) → d < 16 → digit_value (hex_digit d) ≡ d
unfolding digit_value hex_digit
digit_value-hex_digit d h = ground arith

hex_value-hex_digits :
    (width n acc : ℕ) (out : Bytes)
    → n < 16 ^ width
    → hex_value acc (hex_digits width n out) ≡ hex_value (acc * 16 ^ width + n) out
unfolding hex_digits hex_value
hex_value-hex_digits zero n acc out h = ap (λ (t : ℕ). hex_value t out) (omega arith)
hex_value-hex_digits (suc width) n acc out h =
    hex_value-hex_digits width (n / 16) acc (hex_digit (n % 16) ∷ out)
      (omega (arith, pow-suc 16 width))
    ∙ ap (λ (t : ℕ). hex_value t out)
        (omega (
          arith,
          digit_value-hex_digit (n % 16) (omega arith),
          ap (λ (t : ℕ). acc * t) (pow-suc 16 width),
        ))

-- For every text of bytes, reading the eight digits of its hash text back gives its checksum.
hex_value-crc32_hex : (bs : Bytes) → IsBytes bs → hex_value 0 (crc32_hex bs) ≡ crc32 bs
unfolding crc32_hex hex_value
hex_value-crc32_hex bs h =
    hex_value-hex_digits 8 (crc32 bs) 0 []
      (omega (arith, crc32-serial_crc32 bs h, serial_crc32-IsWord bs h))
    ∙ omega arith

pub crc32_hex-injective :
    (a b : Bytes) → IsBytes a → IsBytes b → crc32_hex a ≡ crc32_hex b → crc32 a ≡ crc32 b
crc32_hex-injective a b ha hb h =
    sym (hex_value-crc32_hex a ha) ∙ ap (hex_value 0) h ∙ hex_value-crc32_hex b hb

-- One of `0` to `9` or `a` to `f`.
abbrev pub IsHexDigit : ℕ → Type 0
IsHexDigit c = ((b'0' ≤ c) × (c ≤ b'9')) ⊎ ((b'a' ≤ c) × (c ≤ b'f'))

hex_digit-IsHexDigit : (d : ℕ) → d < 16 → IsHexDigit (hex_digit d)
unfolding hex_digit
hex_digit-IsHexDigit d h = ground arith

hex_digits-shape :
    (width n : ℕ) (out : Bytes)
    → All IsHexDigit out
    → (length (hex_digits width n out) ≡ width + length out)
      × All IsHexDigit (hex_digits width n out)
unfolding hex_digits
hex_digits-shape zero n out h = (omega arith, h)
hex_digits-shape (suc width) n out h =
    let rest =
      hex_digits-shape width (n / 16) (hex_digit (n % 16) ∷ out)
        (hex_digit-IsHexDigit (n % 16) (omega arith), h) in
    (omega (arith, rest.0), rest.1)

-- The hash text of any text is eight lowercase hex digits.
pub crc32_hex-shape : (bs : Bytes) → (length (crc32_hex bs) ≡ 8) × All IsHexDigit (crc32_hex bs)
unfolding crc32_hex
crc32_hex-shape bs = hex_digits-shape 8 (crc32 bs) [] tt
