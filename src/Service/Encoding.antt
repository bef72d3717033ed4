-- ===== src/Service/Encoding.antt =====
-- The output of src/server/RemSvcServiceImpl.cc as a `string` field of proto/RemSvc.proto, which has to
-- be UTF-8: what the cut of `truncateOutput` does to it.
use rem_svc.Base.{
  ℕ, zero, suc, ◌≤◌, List, [], ◌∷◌, ◌++◌, Option, none, some, Bool, true, false, not, ◌&&◌, ◌||◌,
  Bytes, All, length, take, drop, leb, ltb, ltb→lt, ltb→le, lt→leb, le→leb, ◌==◌, if◌then◌else◌,
  ◌≡◌, refl, sym, ◌∙◌, arith, Bool-cases, Option-cases, inl, inr,
}
use mathlib.Core.Path.{subst}
use mathlib.Core.Bool.{false≢true}
use rem_svc.Service.{max_output_bytes, truncation_marker, truncate_output}

-- The least and the greatest value of a byte that is to come.
abbrev Span : Type 0
Span = ℕ × ℕ

abbrev within : ℕ → Span → Bool
within b (low, high) = leb low b && leb b high

abbrev any_tail : Span
any_tail = (0x80, 0xbf)

-- The bytes that follow the first byte of a character, or `none` if it begins none (RFC 3629).
tail_of : ℕ → Option (List Span)
tail_of b =
    if ltb b 0x80
    then some []
    else if ltb b 0xc2
    then none
    else if ltb b 0xe0
    then some (any_tail ∷ [])
    else if b == 0xe0
    then some ((0xa0, 0xbf) ∷ any_tail ∷ [])
    else if b == 0xed
    then some ((0x80, 0x9f) ∷ any_tail ∷ [])
    else if ltb b 0xf0
    then some (any_tail ∷ any_tail ∷ [])
    else if b == 0xf0
    then some ((0x90, 0xbf) ∷ any_tail ∷ any_tail ∷ [])
    else if ltb b 0xf4
    then some (any_tail ∷ any_tail ∷ any_tail ∷ [])
    else if b == 0xf4
    then some ((0x80, 0x8f) ∷ any_tail ∷ any_tail ∷ [])
    else none

-- The text goes on with the bytes that are to come, and with whole characters behind them.
goes_on : List Span → Bytes → Bool
goes_on [] [] = true
goes_on (r ∷ rs) [] = false
goes_on (r ∷ rs) (b ∷ s) = within b r && goes_on rs s
goes_on [] (b ∷ s) = elim (tail_of b) [ none ↦ false | some rs ↦ goes_on rs s ]

-- The text is UTF-8.
unfoldable pub is_utf8 : Bytes → Bool
unfolding goes_on tail_of
is_utf8 s = goes_on [] s

-- A text that does not begin inside a character.
abbrev pub is_boundary : Bytes → Bool
is_boundary [] = true
is_boundary (b ∷ s) = not (within b any_tail)

-- Bytes to come are tails.
abbrev AreTails : List Span → Type 0
AreTails = All (λ r. (0x80 ≤ r.0) × (r.1 ≤ 0xbf))

abbrev Begins : ℕ → Option (List Span) → Type 0
Begins b none = Unit
Begins b (some rs) = AreTails rs × (within b any_tail ≡ false)

-- A byte that begins a character is no tail, and the bytes to come behind it are.
tail_of-Begins : (b : ℕ) → Begins b (tail_of b)
unfolding tail_of
tail_of-Begins b = ground arith

Begins-some : (b : ℕ) (rs : List Span) → tail_of b ≡ some rs → Begins b (some rs)
Begins-some b rs e = subst (Begins b) e (tail_of-Begins b)

goes_on-tail_of :
    (b : ℕ) (rs : List Span) (s : Bytes) → tail_of b ≡ some rs → goes_on [] (b ∷ s) ≡ goes_on rs s
unfolding goes_on
goes_on-tail_of b rs s e = rw (goes_on, e) refl

marker_goes_on : goes_on [] truncation_marker ≡ true
unfolding goes_on tail_of
marker_goes_on = refl

newline-within : (r : Span) → 0x80 ≤ r.0 → within 10 r ≡ false
newline-within r h = ground (arith, h)

within-any_tail :
    (b : ℕ) (r : Span) → 0x80 ≤ r.0 → r.1 ≤ 0xbf → within b r ≡ true → within b any_tail ≡ true
within-any_tail b r low high h = ground (arith, low, high, h)

both : (x y : Bool) → (x && y) ≡ true → (x ≡ true) × (y ≡ true)
both true y h = (refl, h)
both false y h = absurd (false≢true h)

first_within :
    (b : ℕ) (r : Span) (rs : List Span) (s : Bytes)
    → goes_on (r ∷ rs) (b ∷ s) ≡ true
    → (within b r ≡ true) × (goes_on rs s ≡ true)
unfolding goes_on
first_within b r rs s h = both (within b r) (goes_on rs s) h

-- A text that is cut and continued by the marker: whole where the cut stands between characters.
goes_on-take :
    (rs : List Span) (n : ℕ) (s : Bytes)
    → AreTails rs
    → goes_on rs s ≡ true
    → goes_on rs (take n s ++ truncation_marker) ≡ is_boundary (drop n s)
unfolding goes_on
goes_on-take [] zero [] t h = marker_goes_on
goes_on-take [] zero (b ∷ s) t h = elim (Option-cases (tail_of b)) [
  | inl e ↦ absurd (ground (arith, h, e))
  | inr (rs, e) ↦ rw (Begins-some b rs e).1 marker_goes_on
]
goes_on-take (r ∷ rs) zero [] t h = absurd (ground (arith, h))
goes_on-take (r ∷ rs) zero (b ∷ s) t h =
    rw (newline-within r t.0.0, within-any_tail b r t.0.0 t.0.1 (first_within b r rs s h).0) refl
goes_on-take [] (suc n) [] t h = marker_goes_on
goes_on-take (r ∷ rs) (suc n) [] t h = absurd (ground (arith, h))
goes_on-take [] (suc n) (b ∷ s) t h = elim (Option-cases (tail_of b)) [
  | inl e ↦ absurd (ground (arith, h, e))
  | inr (rs, e) ↦
      goes_on-tail_of b rs (take n s ++ truncation_marker) e
      ∙ goes_on-take rs n s (Begins-some b rs e).0 (sym (goes_on-tail_of b rs s e) ∙ h)
]
goes_on-take (r ∷ rs) (suc n) (b ∷ s) t h =
    let (fits, rest) = first_within b r rs s h in rw (goes_on, fits) (goes_on-take rs n s t.1 rest)

-- Output that is UTF-8 stays UTF-8 exactly if it is no longer than the limit of 262144 bytes or if the
-- byte behind the limit does not stand inside a character; a longer output whose character there is cut
-- in two makes a field that is no UTF-8.
pub is_utf8-truncate_output :
    (s : Bytes)
    → is_utf8 s ≡ true
    → is_utf8 (truncate_output s)
      ≡ (leb (length s) max_output_bytes || is_boundary (drop max_output_bytes s))
unfolding is_utf8 truncate_output
is_utf8-truncate_output s h = elim (Bool-cases (ltb max_output_bytes (length s))) [
  | inl long ↦
      rw
        (
          long,
          goes_on-take [] max_output_bytes s tt h,
          lt→leb max_output_bytes (length s) (ltb→lt max_output_bytes (length s) long),
        )
        refl
  | inr short ↦
      rw (short, h, le→leb (length s) max_output_bytes (ltb→le max_output_bytes (length s) short))
        refl
]
