-- ===== src/Service/Interface.antt =====
-- `processStream` of src/server/RemSvcServiceImpl.cc over the interface `ICmdStream` that it is written
-- for. The loop runs on fuel, one unit for each call of `Read`.
use rem_svc.Base.{
  ℕ, zero, suc, ◌<◌, List, [], ◌∷◌, ◌++◌, Option, none, some, Bool, not, ◌&&◌, is_empty, length,
  bytes_eq, if◌then◌else◌, ◌≡◌, refl, ap, ◌∙◌, arith, Bool-cases, inl, inr,
}
use rem_svc.Proto.{RemCmdMsg, RemResMsg, Status, status_ok, permission_denied, invalid_argument}
use rem_svc.Policy.{RegexEngine, Policy, check_allowed}
use rem_svc.Crc.{crc32_hex}
use rem_svc.Service.{
  State, CmdRunner, truncate_output, count_one, hash_mismatch_text, process_stream,
}
use rem_svc.Service.Execute.{accepts, refusal, run_one}
use rem_svc.Service.Stream.{process_stream_step}

-- `ICmdStream`, whose two functions act on a state.
pub record CmdStream (S : Type 0) : Type 0 where
  pub read : S → S × Option RemCmdMsg
  pub write : S → RemResMsg → S × Bool

module _ {engine : RegexEngine} {W S : Type 0} (policy : Policy engine) (runner : CmdRunner W)
    (stream : CmdStream S) where
  -- `none` means that the fuel ran out. The result of `Write` is not looked at.
  unfoldable pub process_on : ℕ → State W → S → Option (State W × Status × S)
  process_on zero s io = none
  process_on (suc fuel) s io = elim (stream.read io).1 [
    | none ↦ some (s, status_ok, (stream.read io).0)
    | some req ↦
        let deny = check_allowed engine policy req.cmd in
        let expected = crc32_hex req.cmd in
        let (world, o) = runner s.world req.cmd req.cmdtyp req.cmdusr in
        let res : RemResMsg = record {
          rc = o.rc;
          tid = req.tid;
          out = truncate_output o.out;
          err = truncate_output o.err;
          hsh = req.hsh;
        } in
        let more =
          process_on fuel
            (record { commands_executed = count_one s.commands_executed; world = world })
            (stream.write (stream.read io).0 res).0 in
        if not (is_empty deny)
        then some (s, record { code = permission_denied; message = deny }, (stream.read io).0)
        else if not (is_empty req.hsh) && not (bytes_eq req.hsh expected)
        then some (
          s,
          record { code = invalid_argument; message = hash_mismatch_text },
          (stream.read io).0,
        )
        else more
  ]

  process_on_step :
      (fuel : ℕ) (s : State W) (io : S) (req : RemCmdMsg)
      → (stream.read io).1 ≡ some req
      → process_on (suc fuel) s io ≡ (
          if accepts policy req
          then (let (s', res) = run_one runner s req in
              process_on fuel s' (stream.write (stream.read io).0 res).0)
          else some (s, refusal policy req, (stream.read io).0))
  unfolding process_on accepts run_one refusal
  process_on_step fuel s io req e = rw (e, process_on) (ground arith)

  -- What a stream shows of the responses written to it.
  module _ (written : S → List RemResMsg) where
    -- The stream delivers these messages, whatever is written in between, and keeps what is written.
    abbrev pub Delivers : List RemCmdMsg → S → Type 0
    Delivers [] io = ((stream.read io).1 ≡ none) × (written (stream.read io).0 ≡ written io)
    Delivers (req ∷ reqs) io =
        let io' = (stream.read io).0 in
        ((stream.read io).1 ≡ some req)
        × (written io' ≡ written io)
        × ((res : RemResMsg)
            → (written (stream.write io' res).0 ≡ written io' ++ res ∷ [])
              × Delivers reqs (stream.write io' res).0)

    -- With more fuel than messages, the loop over any stream that delivers these messages, and keeps
    -- what is written to it, ends, with the state, the status and the responses of `process_stream`
    -- on the list of the messages.
    pub process_on-process_stream :
        (reqs : List RemCmdMsg) (fuel : ℕ) (s : State W) (io : S)
        → length reqs < fuel
        → Delivers reqs io
        → let (s', st, out) = process_stream policy runner s reqs (written io) in
          (io' : S) × (process_on fuel s io ≡ some (s', st, io')) × (written io' ≡ out)
    process_on-process_stream reqs zero s io h d = elim h [ ]
    process_on-process_stream [] (suc fuel) s io h d =
        unfold process_on process_stream in ((stream.read io).0, rw (d.0, process_on) refl, d.1)
    process_on-process_stream (req ∷ reqs) (suc fuel) s io h d =
        let (s', res) = run_one runner s req in
        elim (Bool-cases (accepts policy req)) [
          | inl fits ↦
              let (kept, rest) = d.2 res in
              let io' = (stream.write (stream.read io).0 res).0 in
              let same : written io' ≡ written io ++ res ∷ [] =
                kept ∙ ap (λ (l : List RemResMsg). l ++ res ∷ []) d.1 in
              rw
                (
                  process_on_step fuel s io req d.0,
                  process_stream_step policy runner s req reqs (written io),
                  fits,
                  ← same,
                )
                (process_on-process_stream reqs fuel s' io' (omega arith) rest)
          | inr fails ↦
              rw
                (
                  process_on_step fuel s io req d.0,
                  process_stream_step policy runner s req reqs (written io),
                  fails,
                )
                ((stream.read io).0, refl, d.1)
        ]
