-- ===== src/Client/Adapters.antt =====
-- `GrpcCmdStrmClient` and `GrpcRemSvcStub` of src/client/RemSvcClient.cc, which put the stub that gRPC
-- generates behind the interfaces of the client.
use rem_svc.Base.{ℕ, Option, Bool}
use rem_svc.Proto.{PingMsg, PongMsg, StatusMsg, RemCmdMsg, RemResMsg, Status}
use rem_svc.Client.{ClientContext, Stub}

-- `grpc::ClientReaderWriter<RemCmdMsg, RemResMsg>`, which acts on the transport. `read` gives `none` where
-- `Read` returns false.
pub record ReaderWriter (T : Type 0) : Type 0 where
  pub write : T → RemCmdMsg → T × Bool
  pub read : T → T × Option RemResMsg
  pub writes_done : T → T
  pub finish : T → T × Status

-- `RemSvc::Stub`, on a channel.
pub record GeneratedStub (T : Type 0) : Type 0 where
  pub ping : T → ClientContext → PingMsg → T × Status × PongMsg
  pub get_status : T → ClientContext → T × Status × StatusMsg
  pub rem_cmd : T → ClientContext → RemCmdMsg → T × Status × RemResMsg
  pub rem_cmd_strm : T → ClientContext → T
  pub stream : ReaderWriter T

module _ {T : Type 0} (now : T → ℕ) (stub : GeneratedStub T) where
  -- `GrpcRemSvcStub`, with `GrpcCmdStrmClient` round the stream that it opens.
  unfoldable pub grpc_rem_svc_stub : Stub T
  grpc_rem_svc_stub = record {
    now = now;
    ping = λ t ctx req. stub.ping t ctx req;
    get_status = λ t ctx. stub.get_status t ctx;
    rem_cmd = λ t ctx req. stub.rem_cmd t ctx req;
    open_stream = λ t ctx. stub.rem_cmd_strm t ctx;
    write = λ t msg. stub.stream.write t msg;
    read = λ t. stub.stream.read t;
    writes_done = λ t. stub.stream.writes_done t;
    finish = λ t. stub.stream.finish t;
  }
