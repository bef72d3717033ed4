-- ===== src/Client.antt =====
-- src/client/RemSvcClient.{hh,cc} and the parts of `main` of src/client/RemSvcMain.cc: the client over `IRemSvcStub` and
-- `ICmdStrmClient`, which are an argument. Each call of the stub acts on the transport's state; a
-- stream is part of that state.
pub mod Adapters
pub mod Deadline
pub mod EndToEnd
pub mod Flow
pub mod Guarded
pub mod Pings
pub mod Program
pub mod Session
mod Tests
use rem_svc.Base.{
  ℕ, zero, suc, ◌+◌, List, [], ◌∷◌, Option, none, some, Bool, true, false, not, Bytes, is_empty,
  if◌then◌else◌,
}
use rem_svc.Base.Int.{ℤ, pos, negsuc}
use rem_svc.Proto.{PingMsg, PongMsg, StatusMsg, RemCmdMsg, RemResMsg, Status, is_ok, empty_cmd}
use rem_svc.Crc.{crc32_hex}

pub record PingResult : Type 0 where
  pub ok : Bool
  pub seq_echo : ℤ

pub record StatusResult : Type 0 where
  pub ok : Bool
  pub rc : ℤ
  pub msg : Bytes

-- What the client sets in a `grpc::ClientContext`: the deadline of the call, in milliseconds of the
-- system clock, if it has one.
pub record ClientContext : Type 0 where
  pub deadline : Option ℕ

-- The calls of the two interfaces, and the system clock. `read` gives `none` where `Read` returns false.
pub record Stub (T : Type 0) : Type 0 where
  pub now : T → ℕ
  pub ping : T → ClientContext → PingMsg → T × Status × PongMsg
  pub get_status : T → ClientContext → T × Status × StatusMsg
  pub rem_cmd : T → ClientContext → RemCmdMsg → T × Status × RemResMsg
  pub open_stream : T → ClientContext → T
  pub write : T → RemCmdMsg → T × Bool
  pub writes_done : T → T
  pub read : T → T × Option RemResMsg
  pub finish : T → T × Status

-- The request that `doRemCmd` and `doRemCmdStrm` fill in. The hash is always sent; the user's name
-- stays unset where it is empty.
unfoldable pub make_request : Bytes → ℤ → ℤ → Bytes → RemCmdMsg
make_request cmd cmdtyp tid cmdusr = record empty_cmd {
  cmd = cmd;
  cmdtyp = cmdtyp;
  tid = tid;
  hsh = crc32_hex cmd;
  cmdusr = if is_empty cmdusr then empty_cmd.cmdusr else cmdusr;
}

-- `std::chrono::seconds(30)`
abbrev pub call_ms : ℕ
call_ms = 30000

module _ {T : Type 0} (stub : Stub T) where
  -- `ClientContext ctx; ctx.set_deadline(…)`
  abbrev pub make_context : T → ClientContext
  make_context t = record { deadline = some (stub.now t + call_ms) }

  -- `doPing`, at a time with its text.
  unfoldable pub do_ping : ℤ → Bytes → T → ℤ → T × PingResult
  do_ping unix_seconds iso t seq =
      let (t', status, pong) =
        stub.ping t (make_context t) (record { seq = seq; time = unix_seconds; payload = iso }) in
      if is_ok status
      then (t', record { ok = true; seq_echo = pong.seq })
      else (t', record { ok = false; seq_echo = pos 0 })

  -- `doGetStatus`
  unfoldable pub do_get_status : T → T × StatusResult
  do_get_status t =
      let (t', status, res) = stub.get_status t (make_context t) in
      if is_ok status
      then (t', record { ok = true; rc = res.rc; msg = res.msg })
      else (t', record { ok = false; rc = negsuc 0; msg = [] })

  -- `doRemCmd`
  unfoldable pub do_rem_cmd : T → Bytes → ℤ → ℤ → Bytes → T × ℤ
  unfolding make_request
  do_rem_cmd t cmd cmdtyp tid cmdusr =
      let (t', status, res) =
        stub.rem_cmd t (make_context t) (make_request cmd cmdtyp tid cmdusr) in
      if is_ok status then (t', res.rc) else (t', pos 1)

  -- The writing loop of `doRemCmdStrm`: `tid` is the number of commands sent so far, and a write that
  -- fails ends the loop.
  unfoldable pub send_all : List Bytes → ℤ → Bytes → ℕ → T → T
  send_all [] cmdtyp cmdusr tid t = t
  send_all (cmd ∷ cmds) cmdtyp cmdusr tid t =
      let (t', written) = stub.write t (make_request cmd cmdtyp (pos (suc tid)) cmdusr) in
      let more = send_all cmds cmdtyp cmdusr (suc tid) t' in if not written then t' else more

  -- The reading loop of `doRemCmdStrm`, which only logs the responses, on fuel: `none` means that it
  -- ran out.
  unfoldable pub read_loop : ℕ → T → Option T
  read_loop zero t = none
  read_loop (suc fuel) t = elim (stub.read t).1 [
    | none ↦ some (stub.read t).0
    | some res ↦ read_loop fuel (stub.read t).0
  ]

  -- The end of `doRemCmdStrm`, behind the loops.
  abbrev pub finish_stream : T → T × ℤ
  finish_stream t =
      let (t', status) = stub.finish t in if not (is_ok status) then (t', pos 1) else (t', pos 0)

  -- `doRemCmdStrm`, with the fuel of its reading loop.
  unfoldable pub do_rem_cmd_strm : ℕ → T → List Bytes → ℤ → Bytes → Option (T × ℤ)
  unfolding send_all make_request
  do_rem_cmd_strm fuel t cmds cmdtyp cmdusr =
      let sent =
        stub.writes_done (send_all cmds cmdtyp cmdusr 0 (stub.open_stream t (make_context t))) in
      elim (read_loop fuel sent) [ none ↦ none | some received ↦ some (finish_stream received) ]

  -- The loop `while (ping > 0)` of `main`, for a count that is left; `now` gives each call its time.
  pub ping_loop : (ℕ → ℤ × Bytes) → ℕ → T → T
  unfolding do_ping
  ping_loop now zero t = t
  ping_loop now (suc n) t =
      ping_loop now n (do_ping (now (suc n)).0 (now (suc n)).1 t (pos (suc n))).0

  -- `main` behind the channel's creation: the pings, then the command if there is one.
  unfoldable pub client_main : (ℕ → ℤ × Bytes) → ℤ → Bytes → Bytes → T → T × ℤ
  unfolding ping_loop do_rem_cmd
  client_main now ping cmd cmdusr t =
      let pinged : T = elim ping [ pos n ↦ ping_loop now n t | negsuc n ↦ t ] in
      if is_empty cmd then (pinged, pos 0) else do_rem_cmd pinged cmd (pos 0) (pos 0) cmdusr

-- The credentials of the client's channel.
pub data Credentials : Type 0 where
  insecure : Credentials
  system_roots : Credentials
  own_roots : Bytes → Credentials

-- The file of the CA, if one is named, must open.
unfoldable pub choose_channel : (Bytes → Option Bytes) → Bool → Bytes → Option Credentials
choose_channel disk tls ca_file =
    if not tls
    then some insecure
    else if is_empty ca_file
    then some system_roots
    else elim (disk ca_file) [ none ↦ none | some pem ↦ some (own_roots pem) ]
