-- ===== src/Client/Pings.antt =====
-- The pings of src/client/RemSvcMain.cc.
use rem_svc.Base.{
  ℕ, zero, suc, List, [], ◌∷◌, ◌++◌, append_assoc, append-nil, Bytes, ◌≡◌, sym, ap, ◌∙◌, arith,
}
use rem_svc.Base.Int.{ℤ, pos, negsuc, pos_part}
use rem_svc.Proto.{PingMsg}
use rem_svc.Client.{ClientContext, Stub, make_context, do_ping, ping_loop, client_main}

-- The sequence numbers n, n - 1, …, 1.
pub countdown : ℕ → List ℤ
countdown zero = []
countdown (suc n) = pos (suc n) ∷ countdown n

-- A transport with a record of the sequence numbers of the pings it was given: `seqs` reads it, a
-- ping appends its number, and nothing else is said of the transport.
module _ {T : Type 0} (stub : Stub T) (seqs : T → List ℤ)
    (records : (t : T) (ctx : ClientContext) (msg : PingMsg)
      → seqs (stub.ping t ctx msg).0 ≡ seqs t ++ msg.seq ∷ [])
    (now : ℕ → ℤ × Bytes) where
  seqs-do_ping :
      (t : T) (seq time : ℤ) (iso : Bytes)
      → seqs (do_ping stub time iso t seq).0 ≡ seqs t ++ seq ∷ []
  unfolding do_ping
  seqs-do_ping t seq time iso =
      ground
        (arith, records t (make_context stub t) (record { seq = seq; time = time; payload = iso }))

  ping_loop-countdown : (n : ℕ) (t : T) → seqs (ping_loop stub now n t) ≡ seqs t ++ countdown n
  unfolding ping_loop countdown
  ping_loop-countdown zero t = sym (append-nil (seqs t))
  ping_loop-countdown (suc n) t =
      ping_loop-countdown n _
      ∙ ap (λ (l : List ℤ). l ++ countdown n) (seqs-do_ping t (pos (suc n)) _ _)
      ∙ append_assoc (seqs t) (pos (suc n) ∷ []) (countdown n)

  -- Over a transport that keeps the sequence numbers of the pings it is given, the client without a
  -- command sends --ping pings, numbered from that number down to 1, whether they are answered or
  -- not; for a negative number it sends none.
  client_main_pings :
      (ping : ℤ) (cmdusr : Bytes) (t : T)
      → seqs (client_main stub now ping [] cmdusr t).0 ≡ seqs t ++ countdown (pos_part ping)
  client_main_pings (pos n) cmdusr t = unfold client_main in ping_loop-countdown n t
  client_main_pings (negsuc n) cmdusr t = unfold client_main countdown in sym (append-nil (seqs t))
