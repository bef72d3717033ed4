-- ===== src/Service/Integrity.antt =====
-- The integrity check of src/server/RemSvcServiceImpl.cc on a command that changed on its way.
use rem_svc.Base.{
  ◌≤◌, [], ◌∷◌, ◌++◌, true, false, Bytes, IsBytes, length, is_empty, bytes_eq_iff, ◌≡◌, ◌≢◌, refl,
  sym, ◌∙◌, ap, arith, Bool-cases, inl, inr,
}
use rem_svc.Proto.{RemCmdMsg, RemResMsg, is_ok}
use rem_svc.Policy.{RegexEngine, Policy}
use rem_svc.Crc.{crc32_hex}
use rem_svc.Crc.Hex.{crc32_hex-shape}
use rem_svc.Crc.Detect.{crc32_hex-window}
use rem_svc.Service.{State, CmdRunner, rem_cmd}
use rem_svc.Service.Execute.{accepts, refusal, is_ok-refusal, rem_cmd-run_one}

is_empty-crc32_hex : (s : Bytes) → is_empty (crc32_hex s) ≡ false
is_empty-crc32_hex s = go (crc32_hex s) (crc32_hex-shape s).0
  where
    go : (h : Bytes) → length h ≡ 8 → is_empty h ≡ false
    go [] e = absurd (omega arith)
    go (x ∷ h) e = refl

accepts-hash :
    {engine : RegexEngine} (policy : Policy engine) (req : RemCmdMsg)
    → accepts policy req ≡ true
    → is_empty req.hsh ≡ false
    → req.hsh ≡ crc32_hex req.cmd
unfolding accepts
accepts-hash policy req a e = ground (arith, bytes_eq_iff req.hsh (crc32_hex req.cmd))

module _ {engine : RegexEngine} {W : Type 0} (policy : Policy engine) (runner : CmdRunner W)
    (p v w tail : Bytes) (hp : IsBytes p) (hv : IsBytes v) (hw : IsBytes w) (ht : IsBytes tail)
    (same : length v ≡ length w) (short : length v ≤ 4) (changed : v ≢ w) (req : RemCmdMsg)
    (sent : req.hsh ≡ crc32_hex (p ++ (v ++ tail))) (received : req.cmd ≡ p ++ (w ++ tail)) where
  accepts-changed : accepts policy req ≡ false
  accepts-changed = elim (Bool-cases (accepts policy req)) [
    | inl a ↦ absurd (
        changed (
          crc32_hex-window p v w tail hp hv hw ht same short (
            sym sent
            ∙ accepts-hash policy req a (ap is_empty sent ∙ is_empty-crc32_hex _)
            ∙ ap crc32_hex received)))
    | inr r ↦ r
  ]

  -- A request whose command is the hashed command but for a window of at most four bytes, replaced
  -- by as many other bytes, is refused under every policy: the runner's world, the counter and the
  -- response stay as they were, and the status is not OK.
  pub rem_cmd_changed :
      (s : State W) (res : RemResMsg)
      → (rem_cmd policy runner s req res ≡ (s, refusal policy req, res))
        × (is_ok (refusal policy req) ≡ false)
  rem_cmd_changed s res =
      (rw (rem_cmd-run_one policy runner s req res, accepts-changed), is_ok-refusal policy req)
