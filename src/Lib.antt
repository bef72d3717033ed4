-- ===== src/Lib.antt =====
-- A model of RemSvc, a gRPC service that runs commands on a remote host, with its theorems.
--
-- The program. The server reads a configuration file and its command line (`main`), sets up logging,
-- credentials and authentication, and serves four calls: `Ping`, `GetStatus`, `RemCmd` for one
-- command, and `RemCmdStrm` for a stream of commands. A command passes the access lists (regular
-- expressions, deny before allow), then the check of the CRC-32 that the client may send with it, and
-- is handed to a command runner, which starts a process, under another user if the request names one,
-- and collects its output under a deadline. Authentication by bearer token runs in front of the
-- handlers, and only over TLS. The client sends pings and commands and always adds the CRC-32.
--
-- The files, by what they model:
--   Crc.antt      src/common/Hash.cc: `crc32Hex`. Crc/Table compares it with the serial CRC,
--                 Crc/Words and Crc/Detect are about what it detects, Crc/Hex about its text.
--   Proto.antt    src/proto/RemSvc.proto: the messages, and the part of `grpc::Status` in use.
--   Policy.antt   src/server/RemSvcServiceImpl.cc: the constructor's loops over the patterns and
--                 `checkAllowed`. Policy/Verdict tells the decision from the patterns,
--                 Policy/Unordered from the patterns as sets.
--   Service.antt  src/server/RemSvcServiceImpl.cc: `truncateOutput` and the handlers. The state is the
--                 counter `m_commandsExecuted` and the world that the runner acts on. Service/Interface
--                 has the loop of `processStream` over `ICmdStream`; Service/Execute, Stream,
--                 Integrity, Output, Encoding and Report hold theorems. Service/Threads.antt has the
--                 same handlers step by step, on threads that share the counter, with its children
--                 Track, Isolation and Counter.
--   Process.antt  src/server/RemSvcServiceImpl.cc: `runInProcess`, the default runner. Process/Rounds
--                 is about its loop, Process/Capture and Process/Identity about what it runs,
--                 Process/Clock and Process/Overrun about the time that it takes.
--   Auth.antt     src/server/AuthInterceptor.cc: the token index, `constTimeEqual`, `Process`.
--                 Auth/Compare, Lookup and Decision hold the theorems.
--   Env.antt      src/server/ServerConfig.cc: `expandEnvVars`. Env/Expansion shows that it ends,
--                 Env/Fidelity what it replaces,
--                 Env/Template what it makes of a text of bytes and tokens.
--   Config.antt   src/server/ServerConfig.{hh,cc}: `ServerConfig` and `loadServerConfig`.
--                 Config/Expected, Range, Frame and Tokens hold the theorems.
--   Logging.antt  src/common/Log.cc and the names of levels and files of src/common/CLI.cc.
--                 Logging/Output has the functions of src/common/Log.hh that write, and `GetLogger`.
--   Assertions.antt  src/common/Assert.cc: `Expects` and `Ensures`.
--   Cli.antt      src/common/CLI.cc: `ConfigureCLI`, for both programs.
--   Server.antt   `main` of src/server/RemSvcServer.cc up to the server thread, and the constructor of
--                 src/server/GrpcServerThread.cc. Server/Guard and Server/Precedence hold the
--                 theorems.
--   Lifecycle.antt  the rest of `main` of src/server/RemSvcServer.cc: the signal handlers, the event loop
--                 over a list of events, `GrpcServerThread::stop`, the end of the logging, on POSIX.
--                 Lifecycle/Shutdown holds the theorems.
--   Calls.antt    the way of a call through the server that src/server/GrpcServerThread.cc puts
--                 together: the processor of Auth.antt, then a handler of Service.antt with the runner
--                 for the timeout. Calls/Access and Calls/Probes hold theorems on who is let in,
--                 Calls/Grace on the time of a call and that which `stop` leaves.
--   Client.antt   src/client/RemSvcClient.cc and the pings and the command of
--                 src/client/RemSvcMain.cc. Client/Program has the whole of its `main`. Client/EndToEnd
--                 and Client/Session run it against Service.antt, Client/Guarded against Calls.antt,
--                 Client/Pings counts pings. Client/Adapters has the classes round the generated
--                 stub, Client/Deadline sets the deadline of a call against the timeout on the
--                 server. Client/Flow.antt has `doRemCmdStrm` and the handler at
--                 the two ends of a stream, step by step; its children Outcome, Progress and
--                 Standstill hold the theorems.
--   Signals.antt  src/server/SignalHandler.cc on POSIX, as a step relation. Signals/Delivery holds the
--                 theorems. Signals/Console has the console handler of Windows.
--   Suite.antt    tst/unit/cpp, tst/integ/cpp and tst/load/cpp: the doubles that the repository's tests
--                 put in the place of gRPC (Suite/Fakes, Calling, Identities, Configured), and each
--                 test, under its own name, as the statement that its expectations make, which is
--                 proved right below it (Suite/Unary, Reports, Filters, Streamed, Calling, Identities,
--                 Configured, Shared, RoundTrip, Load).
--   Base.antt     the names, lists, bytes, integers, bits and maps that the others share.
--   Samples.antt  concrete values for the parameters, for the runs in the Tests modules; Samples/Naps
--                 is a system with a clock.
--
-- How code and model correspond. A `std::string` is a list of byte values, `int32` and `int` are
-- unbounded integers where the program only copies or compares them, `int64_t` of the counter is its
-- bit pattern with the wrap written out, `uint32_t` words are numbers below 2 ^ 32. A `std::map` is a
-- list of pairs sorted by key. Code that changes its arguments returns them. A response of a handler
-- is passed in, so that a branch that leaves it alone can say so. Log lines are left out.
--
-- What is outside the repository is a parameter: the regex engine (`RegexEngine`), the command
-- runner (`CmdRunner`), `getenv` (`GetEnv`), the configuration file as `QSettings` shows it
-- (`IniFile`), the operating system and `QProcess` (`Os`, `Posix`, `Kernel`), what CLI11 reads
-- (`Args`, `ClientArgs`), the files of the TLS credentials, gRPC in front of the handlers (`Grpc`),
-- the creation of the client's channel and its stub (`GeneratedStub`, `Stub`), the clock and the
-- calls that wait (`Clock`), the deadline of a call (`Channel`), spdlog's threshold (`Threshold`).
-- In Service.antt a stream is the list of messages that `Read` delivers before it returns false;
-- Service/Interface ties that to `ICmdStream` (`CmdStream`). `Write` on the server cannot fail
-- there, as its result is not looked at. The tests take as a parameter what they rely on of
-- `std::regex`, Qt and the shell (`KnownPatterns`, `QtText`, `Shell`).
--
-- Fuel. The loop of `expandEnvVars` runs on fuel, one unit for each round of the source's loop.
-- Each round reads at least one byte, so the text's length plus one is enough. The polling loop of
-- `runInProcess` runs on fuel too, one unit for each round; one unit more than the rounds that a
-- timer needs to expire is enough, and `default_runner` is the runner without fuel for such a
-- timer. The loops over `Read`, of the server and of the client, run on fuel, one unit for each
-- call of `Read`; more units than messages are enough.
--
-- Not modelled: what gRPC and Qt do by themselves (`GrpcServerThread::run` only waits for gRPC),
-- the server's run on Windows (its console handler is modelled, alone), an exception that
-- `std::regex_search` or a runner throws, the formatting of the log lines, the generated protobuf
-- code, the adapter of the server that only forwards to gRPC, the headers that only bring in names
-- of Abseil, the Python provider and client under prv/ and src/pyclient/, the build and install
-- scripts; of the tests, the one that starts a process and two that only ask that a call returns.
pub mod Base
pub mod Calls
pub mod Crc
pub mod Proto
pub mod Policy
pub mod Service
pub mod Assertions
pub mod Auth
pub mod Env
pub mod Config
pub mod Process
pub mod Logging
pub mod Cli
pub mod Server
pub mod Client
pub mod Lifecycle
pub mod Signals
pub mod Suite
pub mod Samples
