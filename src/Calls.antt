-- ===== src/Calls.antt =====
-- A call to the server that src/server/GrpcServerThread.cc has put together: the processor that is
-- attached to the credentials, the service with its runner, and the handlers behind them. How gRPC calls
-- the two is a parameter, with what its documentation says of it.
pub mod Access
pub mod Probes
pub mod Grace
mod Tests
use rem_svc.Base.{ℕ, List, [], Option, none, some, true, false, ◌≡◌}
use rem_svc.Base.Int.{ℤ}
use rem_svc.Base.Maps.{TextMap}
use rem_svc.Proto.{RemCmdMsg, RemResMsg, PingMsg, PongMsg, StatusMsg, Status, is_ok, empty_res}
use rem_svc.Auth.{AuthContext, process}
use rem_svc.Policy.{RegexEngine}
use rem_svc.Service.{State, CmdRunner, ping, get_status, rem_cmd, process_stream}
use rem_svc.Server.{GrpcServer}

-- What a call leaves: the state, its status, and what the handler has given if it was called.
abbrev pub Called : Type 0 → Type 0 → Type 0
Called S A = S × Status × Option A

-- gRPC in front of the handlers: `call` has the attached processor, the call's metadata, the state and
-- the handler. The documentation of `AuthMetadataProcessor` says that it is run before the handler,
-- and that a status other than OK ends the call with that status.
pub record Grpc (S A : Type 0) : Type 0 where
  pub call : Option (TextMap → Status) → TextMap → S → (S → S × Status × A) → Called S A
  pub bare :
      (md : TextMap) (s : S) (h : S → S × Status × A)
      → call none md s h ≡ (let (s', st, a) = h s in (s', st, some a))
  pub admitted :
      (p : TextMap → Status) (md : TextMap) (s : S) (h : S → S × Status × A)
      → is_ok (p md) ≡ true
      → call (some p) md s h ≡ (let (s', st, a) = h s in (s', st, some a))
  pub refused :
      (p : TextMap → Status) (md : TextMap) (s : S) (h : S → S × Status × A)
      → is_ok (p md) ≡ false
      → call (some p) md s h ≡ (s, p md, none)

abbrev pub fresh_context : AuthContext
fresh_context = record { properties = []; peer_identity_property = none }

-- `Process` of the attached processor on a new context.
abbrev pub attached_processor : Option TextMap → Option (TextMap → Status)
attached_processor none = none
attached_processor (some tokens) = some (λ md. (process tokens md fresh_context []).0)

module _ {engine : RegexEngine} {W : Type 0} (runners : ℤ → CmdRunner W)
    (srv : GrpcServer engine) where
  -- The lambda round `runInProcess` is `runners` at the server's timeout.
  abbrev pub server_runner : CmdRunner W
  server_runner = runners srv.cmd_timeout_ms

  -- A call of `RemCmd`.
  unfoldable pub call_rem_cmd :
      Grpc (State W) RemResMsg → TextMap → State W → RemCmdMsg → Called (State W) RemResMsg
  call_rem_cmd grpc md s req =
      grpc.call (attached_processor srv.auth_processor) md s
        λ s. rem_cmd srv.policy server_runner s req empty_res

  -- A call of `RemCmdStrm`.
  unfoldable pub call_stream :
      Grpc (State W) (List RemResMsg)
      → TextMap
      → State W
      → List RemCmdMsg
      → Called (State W) (List RemResMsg)
  call_stream grpc md s reqs =
      grpc.call (attached_processor srv.auth_processor) md s
        λ s. process_stream srv.policy server_runner s reqs []

module _ {engine : RegexEngine} {W : Type 0} (srv : GrpcServer engine) where
  -- A call of `Ping`.
  unfoldable pub call_ping :
      Grpc (State W) PongMsg → TextMap → State W → PingMsg → Called (State W) PongMsg
  call_ping grpc md s msg =
      grpc.call (attached_processor srv.auth_processor) md s
        λ s. let (st, pong) = ping msg in (s, st, pong)

  -- A call of `GetStatus`, `now` nanoseconds into the steady clock's time.
  unfoldable pub call_get_status :
      Grpc (State W) StatusMsg → ℕ → ℕ → TextMap → State W → Called (State W) StatusMsg
  call_get_status grpc start_time now md s =
      grpc.call (attached_processor srv.auth_processor) md s
        λ s. let (st, res) = get_status start_time now s in (s, st, res)
