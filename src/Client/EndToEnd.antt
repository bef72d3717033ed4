-- ===== src/Client/EndToEnd.antt =====
-- The client of src/client/RemSvcClient.cc against the service of src/server/RemSvcServiceImpl.cc,
-- over a transport that delivers every message, in order, within the client's deadline of 30 seconds.
use rem_svc.Base.{
  ℕ, zero, suc, ◌≤◌, ◌<◌, length, none, some, List, [], ◌∷◌, ◌++◌, append-nil, append_assoc, true,
  Bytes, is_empty, bytes_eq_self, if◌then◌else◌, ◌≡◌, refl, sym, ap, ◌∙◌, arith, for_all,
}
use rem_svc.Base.Int.{ℤ, pos}
use rem_svc.Proto.{RemCmdMsg, RemResMsg, Status, status_ok, is_ok, empty_res}
use rem_svc.Policy.{RegexEngine, Policy, check_allowed}
use rem_svc.Crc.{crc32_hex}
use rem_svc.Service.{State, CmdRunner, ping, get_status, rem_cmd, process_stream}
use rem_svc.Service.Execute.{accepts, run_one, is_ok-refusal, rem_cmd-run_one}
use rem_svc.Service.Stream.{accepted, ending, run_all, length-run_all, process_stream-run_all}
use rem_svc.Client.{Stub, make_request, do_rem_cmd, send_all, read_loop, do_rem_cmd_strm}

-- The server's state, and a stream: what the client has written, the responses that it has not read
-- yet, and how the handler ended.
pub record Wire (W : Type 0) : Type 0 where
  pub state : State W
  pub sent : List RemCmdMsg
  pub inbox : List RemResMsg
  pub status : Status

-- The requests of `doRemCmdStrm`, numbered from `tid` + 1.
pub requests : List Bytes → ℤ → Bytes → ℕ → List RemCmdMsg
requests [] cmdtyp cmdusr tid = []
requests (cmd ∷ cmds) cmdtyp cmdusr tid =
    make_request cmd cmdtyp (pos (suc tid)) cmdusr ∷ requests cmds cmdtyp cmdusr (suc tid)

-- The commands in front of the first that the access lists refuse.
pub allowed_prefix : {engine : RegexEngine} → Policy engine → List Bytes → List Bytes
allowed_prefix policy [] = []
allowed_prefix {engine = engine} policy (cmd ∷ cmds) =
    if is_empty (check_allowed engine policy cmd) then cmd ∷ allowed_prefix policy cmds else []

module _ {engine : RegexEngine} {W : Type 0} (policy : Policy engine) (runner : CmdRunner W)
    (start_time now : ℕ) where
  -- The handler takes the stream when the client has written all of it.
  abbrev pub wire_stub : Stub (Wire W)
  wire_stub = record {
    now = λ t. 0;
    ping = λ t ctx msg. let (st, pong) = ping msg in (t, st, pong);
    get_status = λ t ctx. let (st, res) = get_status start_time now t.state in (t, st, res);
    rem_cmd = λ t ctx req.
        let (s, st, res) = rem_cmd policy runner t.state req empty_res in
        (record t { state = s }, st, res);
    open_stream = λ t ctx. record t { sent = []; inbox = []; status = status_ok };
    write = λ t req. (record t { sent = t.sent ++ req ∷ [] }, true);
    writes_done = λ t.
        let (s, st, responses) = process_stream policy runner t.state t.sent [] in
        record t { state = s; status = st; inbox = responses };
    read =
        λ t. elim t.inbox [ [] ↦ (t, none) | res ∷ rest ↦ (record t { inbox = rest }, some res) ];
    finish = λ t. (t, t.status);
  }

  -- A request of the client is accepted exactly if the access lists allow its command.
  pub accepts-make_request :
      (cmd : Bytes) (cmdtyp tid : ℤ) (cmdusr : Bytes)
      → accepts policy (make_request cmd cmdtyp tid cmdusr)
        ≡ is_empty (check_allowed engine policy cmd)
  unfolding accepts make_request
  accepts-make_request cmd cmdtyp tid cmdusr = ground (arith, bytes_eq_self (crc32_hex cmd))

  -- A command sent by `doRemCmd` passes the server's integrity check: where the access lists allow it,
  -- it is run once and its exit code comes back, and otherwise nothing is run and the result is 1.
  pub do_rem_cmd_delivered :
      (t : Wire W) (cmd : Bytes) (cmdtyp tid : ℤ) (cmdusr : Bytes)
      → do_rem_cmd wire_stub t cmd cmdtyp tid cmdusr ≡ (
          let (s, res) = run_one runner t.state (make_request cmd cmdtyp tid cmdusr) in
          if is_empty (check_allowed engine policy cmd)
          then (record t { state = s }, res.rc)
          else (t, pos 1))
  do_rem_cmd_delivered t cmd cmdtyp tid cmdusr =
      let req = make_request cmd cmdtyp tid cmdusr in
      unfold do_rem_cmd in
      rw rem_cmd-run_one
        (ground (arith, accepts-make_request cmd cmdtyp tid cmdusr, is_ok-refusal policy req))

  send_all-requests :
      (cmds : List Bytes) (cmdtyp : ℤ) (cmdusr : Bytes) (tid : ℕ) (t : Wire W)
      → send_all wire_stub cmds cmdtyp cmdusr tid t
        ≡ record t { sent = t.sent ++ requests cmds cmdtyp cmdusr tid }
  unfolding send_all requests
  send_all-requests [] cmdtyp cmdusr tid t =
      ap (λ (l : List RemCmdMsg). record t { sent = l }) (sym (append-nil t.sent))
  send_all-requests (cmd ∷ cmds) cmdtyp cmdusr tid t =
      let req = make_request cmd cmdtyp (pos (suc tid)) cmdusr in
      send_all-requests cmds cmdtyp cmdusr (suc tid) (record t { sent = t.sent ++ req ∷ [] })
      ∙ ap (λ (l : List RemCmdMsg). record t { sent = l }) (append_assoc t.sent (req ∷ []) _)

  accepted-requests :
      (cmds : List Bytes) (cmdtyp : ℤ) (cmdusr : Bytes) (tid : ℕ)
      → accepted policy (requests cmds cmdtyp cmdusr tid)
        ≡ requests (allowed_prefix policy cmds) cmdtyp cmdusr tid
  unfolding accepted requests allowed_prefix
  accepted-requests [] cmdtyp cmdusr tid = refl
  accepted-requests (cmd ∷ cmds) cmdtyp cmdusr tid = ground (
    arith,
    accepts-make_request cmd cmdtyp (pos (suc tid)) cmdusr,
    accepted-requests cmds cmdtyp cmdusr (suc tid),
  )

  is_ok-ending :
      (cmds : List Bytes) (cmdtyp : ℤ) (cmdusr : Bytes) (tid : ℕ)
      → is_ok (ending policy (requests cmds cmdtyp cmdusr tid))
        ≡ for_all (λ cmd. is_empty (check_allowed engine policy cmd)) cmds
  unfolding ending requests for_all
  is_ok-ending [] cmdtyp cmdusr tid = refl
  is_ok-ending (cmd ∷ cmds) cmdtyp cmdusr tid = ground (
    arith,
    accepts-make_request cmd cmdtyp (pos (suc tid)) cmdusr,
    is_ok-ending cmds cmdtyp cmdusr (suc tid),
    is_ok-refusal policy (make_request cmd cmdtyp (pos (suc tid)) cmdusr),
  )

  read_loop-wire_stub :
      (fuel : ℕ) (t : Wire W)
      → length t.inbox < fuel
      → read_loop wire_stub fuel t ≡ some (record t { inbox = [] })
  unfolding read_loop
  read_loop-wire_stub fuel t h = go t.inbox fuel h
    where
      go :
          (inbox : List RemResMsg) (fuel : ℕ)
          → length inbox < fuel
          → read_loop wire_stub fuel (record t { inbox = inbox }) ≡ some (record t { inbox = [] })
      go inbox zero h = elim h [ ]
      go [] (suc fuel) h = refl
      go (res ∷ rest) (suc fuel) h = go rest fuel (omega arith)

  length-requests :
      (cmds : List Bytes) (cmdtyp : ℤ) (cmdusr : Bytes) (tid : ℕ)
      → length (requests (allowed_prefix policy cmds) cmdtyp cmdusr tid) ≤ length cmds
  unfolding requests allowed_prefix
  length-requests [] cmdtyp cmdusr tid = omega arith
  length-requests (cmd ∷ cmds) cmdtyp cmdusr tid =
      ground (arith, length-requests cmds cmdtyp cmdusr (suc tid))

  -- The commands sent by `doRemCmdStrm` are run in order, each once and numbered from 1, up to the first
  -- that the access lists refuse; with more fuel than commands its reading loop comes to an end, and
  -- the result is 0 exactly if the lists refuse none.
  pub do_rem_cmd_strm_delivered :
      (fuel : ℕ) (t : Wire W) (cmds : List Bytes) (cmdtyp : ℤ) (cmdusr : Bytes)
      → length cmds < fuel
      → let run = requests (allowed_prefix policy cmds) cmdtyp cmdusr 0 in
        let rc =
          if for_all (λ cmd. is_empty (check_allowed engine policy cmd)) cmds
          then pos 0
          else pos 1 in
        (t' : Wire W) × (do_rem_cmd_strm wire_stub fuel t cmds cmdtyp cmdusr ≡ some (t', rc))
        × (t'.state ≡ (run_all runner t.state run).0)
  unfolding do_rem_cmd_strm
  do_rem_cmd_strm_delivered fuel t cmds cmdtyp cmdusr h =
      let reqs = requests cmds cmdtyp cmdusr 0 in
      let run = requests (allowed_prefix policy cmds) cmdtyp cmdusr 0 in
      let (s, responses) = run_all runner t.state run in
      let left : Wire W = record {
        state = s;
        sent = reqs;
        inbox = responses;
        status = ending policy reqs;
      } in
      let size : length responses < fuel =
        omega (arith, length-run_all runner t.state run, length-requests cmds cmdtyp cmdusr 0) in
      rw
        (
          do_rem_cmd_strm,
          send_all-requests cmds cmdtyp cmdusr 0
              (record t { sent = []; inbox = []; status = status_ok }),
          process_stream-run_all policy runner t.state reqs [],
          accepted-requests cmds cmdtyp cmdusr 0,
          read_loop-wire_stub fuel left size,
        )
        (record left { inbox = [] }, ground (arith, is_ok-ending cmds cmdtyp cmdusr 0), refl)
