-- ===== src/Service/Output.antt =====
-- `truncateOutput` of src/server/RemSvcServiceImpl.cc.
use rem_svc.Base.{
  ℕ, zero, suc, ◌+◌, ◌≤◌, ◌<◌, [], ◌∷◌, ◌++◌, Bytes, length, take, length-append, length-take, ltb,
  ltb→lt, ltb→le, ◌≡◌, refl, ap, ◌↔◌, arith, Bool-cases, inl, inr,
}
use rem_svc.Service.{max_output_bytes, truncation_marker, truncate_output}

take-take_append : (n : ℕ) (s m : Bytes) → n ≤ length s → take n (take n s ++ m) ≡ take n s
take-take_append zero s m h = refl
take-take_append (suc n) [] m h = absurd (omega arith)
take-take_append (suc n) (x ∷ s) m h = ap (◌∷◌ x) (take-take_append n s m (omega arith))

length-take_append : (n : ℕ) (s m : Bytes) → n ≤ length s → length (take n s ++ m) ≡ n + length m
length-take_append n s m h = omega (arith, length-append (take n s) m, length-take n s)

-- For every output: the result is at most the limit plus the marker long, its first 262144 bytes are
-- those of the output, and it is longer than the limit exactly if the output was.
pub truncate_output_lem :
    (s : Bytes)
    → (length (truncate_output s) ≤ max_output_bytes + length truncation_marker)
      × (take max_output_bytes (truncate_output s) ≡ take max_output_bytes s)
      × ((max_output_bytes < length (truncate_output s)) ↔ (max_output_bytes < length s))
unfolding truncate_output
truncate_output_lem s = elim (Bool-cases (ltb max_output_bytes (length s))) [
  | inl long ↦
      let fits : max_output_bytes < length s = ltb→lt max_output_bytes (length s) long in
      let size = length-take_append max_output_bytes s truncation_marker (omega arith) in
      rw long (
        omega (arith, size),
        take-take_append max_output_bytes s truncation_marker (omega arith),
        (λ h. fits, λ h. omega (arith, size)),
      )
  | inr short ↦
      rw short (omega (arith, ltb→le max_output_bytes (length s) short), refl, (λ h. h, λ h. h))
]
