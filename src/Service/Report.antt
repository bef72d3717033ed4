-- ===== src/Service/Report.antt =====
-- The text of `GetStatus` (src/server/RemSvcServiceImpl.cc).
use rem_svc.Base.{
  ℕ, ◌-◌, ◌/◌, ◌^◌, ◌<◌, ◌++◌, Bytes, codes, length, drop, drop-append_length, ◌≡◌, sym, ap, ◌∙◌,
  arith,
}
use rem_svc.Base.Int.{nat_text}
use rem_svc.Base.Int.Decimal.{int_text-injective}
use rem_svc.Service.{State, signed64, get_status}

append_cancel : (p a b : Bytes) → p ++ a ≡ p ++ b → a ≡ b
append_cancel p a b h =
    sym (drop-append_length p a) ∙ ap (drop (length p)) h ∙ drop-append_length p b

signed64-injective : (m n : ℕ) → m < 2 ^ 64 → n < 2 ^ 64 → signed64 m ≡ signed64 n → m ≡ n
signed64-injective m n hm hn h = ground arith

-- Two reports at the same time of a server started at the same time are equal only if the 64-bit
-- counters are: the text gives the number of executed commands away completely.
get_status-injective :
    {V W : Type 0} (start_time now : ℕ) (s : State V) (t : State W)
    → s.commands_executed < 2 ^ 64
    → t.commands_executed < 2 ^ 64
    → (get_status start_time now s).1.msg ≡ (get_status start_time now t).1.msg
    → s.commands_executed ≡ t.commands_executed
unfolding get_status
get_status-injective start_time now s t hs ht h = signed64-injective _ _ hs ht (
    int_text-injective _ _ (
      append_cancel (codes "s commands=") _ _ (
        append_cancel (nat_text ((now - start_time) / 1000000000)) _ _
          (append_cancel (codes "state=OK uptime=") _ _ h))))
