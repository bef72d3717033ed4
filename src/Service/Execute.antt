-- ===== src/Service/Execute.antt =====
-- Which requests src/server/RemSvcServiceImpl.cc runs, and what running one does.
use rem_svc.Base.{Bool, false, ◌&&◌, ◌||◌, is_empty, bytes_eq, if◌then◌else◌, ◌≡◌, arith}
use rem_svc.Proto.{
  RemCmdMsg, RemResMsg, Status, status_ok, is_ok, permission_denied, invalid_argument,
}
use rem_svc.Policy.{RegexEngine, Policy, check_allowed}
use rem_svc.Crc.{crc32_hex}
use rem_svc.Service.{State, CmdRunner, truncate_output, count_one, rem_cmd, hash_mismatch_text}

module _ {engine : RegexEngine} (policy : Policy engine) where
  -- The access lists have no objection, and the hash is absent or that of the command.
  unfoldable pub accepts : RemCmdMsg → Bool
  accepts req =
      is_empty (check_allowed engine policy req.cmd)
      && (is_empty req.hsh || bytes_eq req.hsh (crc32_hex req.cmd))

  -- The answer to a request that is not accepted.
  unfoldable pub refusal : RemCmdMsg → Status
  refusal req =
      if is_empty (check_allowed engine policy req.cmd)
      then record { code = invalid_argument; message = hash_mismatch_text }
      else record { code = permission_denied; message = check_allowed engine policy req.cmd }

  pub is_ok-refusal : (req : RemCmdMsg) → is_ok (refusal req) ≡ false
  unfolding refusal
  is_ok-refusal req = ground arith

module _ {W : Type 0} (runner : CmdRunner W) where
  -- One call of the runner, counted, with its outcome cut to size.
  unfoldable pub run_one : State W → RemCmdMsg → State W × RemResMsg
  run_one s req =
      let (world, o) = runner s.world req.cmd req.cmdtyp req.cmdusr in
      (
        record { commands_executed = count_one s.commands_executed; world = world },
        record {
          rc = o.rc;
          tid = req.tid;
          out = truncate_output o.out;
          err = truncate_output o.err;
          hsh = req.hsh;
        },
      )

module _ {engine : RegexEngine} {W : Type 0} (policy : Policy engine) (runner : CmdRunner W) where
  -- An accepted request is run, once, and counted; any other leaves the counter, the world and the
  -- response as they were, and is answered by its refusal.
  pub rem_cmd-run_one :
      (s : State W) (req : RemCmdMsg) (res : RemResMsg)
      → rem_cmd policy runner s req res ≡ (
          if accepts policy req
          then (let (s', r) = run_one runner s req in (s', status_ok, r))
          else (s, refusal policy req, res))
  unfolding rem_cmd accepts run_one refusal
  rem_cmd-run_one s req res = ground arith
