-- ===== src/Server.antt =====
-- The start of the server: `main` of src/server/RemSvcServer.cc up to the server thread, and the
-- constructor of `GrpcServerThread` (src/server/GrpcServerThread.cc). What CLI11 reads from the command
-- line, the files and `BuildAndStart` are parameters.
pub mod Guard
pub mod Precedence
mod Tests
use rem_svc.Base.{
  List, [], ◌++◌, Option, none, some, Bool, true, false, not, ◌&&◌, ◌||◌, Bytes, codes, is_empty,
  length, ltb, if◌then◌else◌,
}
use rem_svc.Base.Int.{ℤ, pos, leb_ℤ, is_nonzero, int_text}
use rem_svc.Base.Maps.{TextMap}
use rem_svc.Cli.{CommonArgs, given, configure_cli}
use rem_svc.Env.{GetEnv}
use rem_svc.Auth.{make_processor}
use rem_svc.Policy.{RegexEngine, Policy, make_policy}
use rem_svc.Config.{ServerConfig, IniFile, default_config, load_server_config}
use rem_svc.Logging.{CliVars, default_log_file_name}

-- What CLI11 makes of the server's command line.
pub record Args : Type 0 where
  pub common : CommonArgs
  pub open common use {parse_error, version, app_name, log_file, debug, log_level}
  pub config : Option Bytes
  pub port : Option ℤ
  pub tls : Option Bool
  pub cert : Option Bytes
  pub key : Option Bytes
  pub ca_cert : Option Bytes
  pub cmd_timeout_ms : Option ℤ
  pub allow : Option (List Bytes)
  pub deny : Option (List Bytes)
  pub log_file_override : Option Bytes
  pub log_level_override : Option Bytes

pub record TlsConfig : Type 0 where
  pub cert_file : Bytes
  pub key_file : Bytes
  pub ca_file : Bytes

-- What `main` hands to the server thread, and the variables of the logging at that point.
pub record Setup : Type 0 where
  pub port : ℤ
  pub tls_config : Option TlsConfig
  pub allowlist : List Bytes
  pub denylist : List Bytes
  pub auth_tokens : TextMap
  pub cmd_timeout_ms : ℤ
  pub cli : CliVars

pub data Startup : Type 0 where
  exits : ℤ → Bytes → Startup
  continues : Setup → Startup

abbrev pub tls_text : Bytes
tls_text = codes "--tls requires both --cert and --key\n"

abbrev pub auth_text : Bytes
auth_text = codes "Error: bearer-token authentication requires TLS (--tls --cert ... --key ...)\n"

-- Step 4: the variables that `InitLogging` reads.
pub logging_vars : Args → ServerConfig → CliVars → CliVars
logging_vars args cfg cli =
    let log_file = given args.log_file_override cfg.log_file in
    let log_level = given args.log_level_override cfg.log_level in
    record {
      log_file = if is_empty log_file then default_log_file_name args.app_name else log_file;
      log_level = if is_empty log_level then cli.log_level else log_level;
      dbg_level = if leb_ℤ (pos 0) cfg.debug_level then cfg.debug_level else cli.dbg_level;
    }

-- Steps 3 to 5, up to the server thread, with the configuration that step 2 loaded.
pub configure : Args → CliVars → ServerConfig → Startup
unfolding configure_cli logging_vars
configure args vars cfg =
    let tls = given args.tls cfg.tls_enabled in
    let cert_file = given args.cert cfg.cert_file in
    let key_file = given args.key cfg.key_file in
    let ca_file = given args.ca_cert cfg.ca_file in
    let (rc, cli) = configure_cli args.common vars in
    if is_nonzero rc
    then exits rc []
    else if tls && (is_empty cert_file || is_empty key_file)
    then exits (pos 1) tls_text
    else if not tls && not (is_empty cfg.auth_tokens)
    then exits (pos 1) auth_text
    else continues (record {
      port = given args.port cfg.port;
      tls_config =
          if tls
          then some (record { cert_file = cert_file; key_file = key_file; ca_file = ca_file })
          else none;
      allowlist = given args.allow cfg.allowlist;
      denylist = given args.deny cfg.denylist;
      auth_tokens = cfg.auth_tokens;
      cmd_timeout_ms = given args.cmd_timeout_ms cfg.cmd_timeout_ms;
      cli = logging_vars args cfg cli;
    })

-- The configuration of step 2, with the error text, empty on success and where no file is named.
pub load_config : (Bytes → IniFile) → GetEnv → Args → ServerConfig × Bytes
load_config files getenv args =
    let path = given args.config [] in
    if is_empty path
    then (default_config, [])
    else load_server_config (files path) getenv path default_config

-- `main`, up to the server thread.
unfoldable pub startup : (Bytes → IniFile) → GetEnv → Args → CliVars → Startup
unfolding configure load_config
startup files getenv args vars =
    let (cfg, err) = load_config files getenv args in
    if is_empty err
    then configure args vars cfg
    else exits (pos 1) (codes "Error loading config: " ++ (err ++ codes "\n"))

-- The content of a file, or what the exception says.
pub data Content : Type 0 where
  content : Bytes → Content
  throws : Bytes → Content

-- `readFile`: `none` is a file that cannot be opened.
pub read_file : (Bytes → Option Bytes) → Bytes → Content
read_file disk path = elim (disk path) [
  | none ↦ throws (codes "cannot open file: " ++ path)
  | some text ↦
      if ltb 1048576 (length text)
      then throws (codes "file too large (> 1 MB): " ++ path)
      else content text
]

pub data Credentials : Type 0 where
  insecure : Credentials
  -- Key, certificate, root certificates, and whether a client certificate is required and verified.
  ssl : Bytes → Bytes → Bytes → Bool → Credentials

-- Behind `BuildAndStart`: the address, the credentials, and the tokens of the attached processor.
pub record GrpcServer (engine : RegexEngine) : Type 0 where
  pub address : Bytes
  pub credentials : Credentials
  pub auth_processor : Option TextMap
  pub policy : Policy engine
  pub cmd_timeout_ms : ℤ

pub data Construction (engine : RegexEngine) : Type 0 where
  raises : Bytes → Construction engine
  started : GrpcServer engine → Construction engine

-- The credentials, or what the exception says. The files are read in the order key, certificate, CA.
pub data Choice : Type 0 where
  chosen : Credentials → Choice
  fails : Bytes → Choice

abbrev with_content : Content → (Bytes → Choice) → Choice
with_content (content text) f = f text
with_content (throws text) f = fails text

pub choose_credentials : (Bytes → Option Bytes) → Option TlsConfig → Choice
unfolding read_file
choose_credentials disk none = chosen insecure
choose_credentials disk (some tls) = with_content (read_file disk tls.key_file) λ key.
    with_content (read_file disk tls.cert_file) λ cert.
      if is_empty tls.ca_file
      then chosen (ssl key cert [] false)
      else with_content (read_file disk tls.ca_file) (λ root. chosen (ssl key cert root true))

-- The processor is attached to the credentials only under TLS.
abbrev attached : Option TlsConfig → TextMap → Option TextMap
attached none processor = none
attached (some tls) processor = some processor

-- `Expects`; its text goes on with the place in the source.
abbrev expect_started : {engine : RegexEngine} → Bool → GrpcServer engine → Construction engine
expect_started true server = started server
expect_started false server = raises (codes "Expect failure")

-- The constructor of `GrpcServerThread`; the flag says whether `BuildAndStart` gives a server.
unfoldable pub make_server :
    (engine : RegexEngine) → (Bytes → Option Bytes) → Bool → Setup → Construction engine
unfolding choose_credentials
make_server engine disk builds setup = elim (choose_credentials disk setup.tls_config) [
  | fails text ↦ raises text
  | chosen credentials ↦ expect_started builds (record {
    address = codes "0.0.0.0:" ++ int_text setup.port;
    credentials = credentials;
    auth_processor = attached setup.tls_config (make_processor setup.auth_tokens);
    policy = make_policy engine setup.allowlist setup.denylist;
    cmd_timeout_ms = setup.cmd_timeout_ms;
  })
]
