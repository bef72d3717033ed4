-- ===== src/Samples.antt =====
-- Concrete values for what the program takes from outside src/: a regex engine that searches for the
-- pattern's own text, a command runner that echoes, an environment, a configuration file, an operating
-- system. The runs in the Tests modules use them.
pub mod Naps
use rem_svc.Base.{
  ℕ, suc, List, [], ◌∷◌, ◌++◌, Option, none, some, Bool, true, false, ◌&&◌, ◌||◌, Bytes, codes,
  bytes_eq, ◌==◌, ◌+◌, leb, ltb, if◌then◌else◌, ◌≡◌, refl,
}
use rem_svc.Base.Int.{ℤ, pos, negsuc}
use rem_svc.Policy.{RegexEngine, Policy, make_policy}
use rem_svc.Proto.{RemCmdMsg, Status, status_ok, is_ok, empty_cmd}
use rem_svc.Service.{State, CmdRunner}
use rem_svc.Config.{IniFile}
use rem_svc.Env.{GetEnv}
use rem_svc.Process.{Os}
use rem_svc.Server.{Args, Setup, continues, startup, ssl, GrpcServer, started, make_server}
use rem_svc.Auth.{make_processor}
use rem_svc.Calls.{Called, Grpc}
use rem_svc.Config.{load_server_config}
use rem_svc.Env.{expand_env_vars}
use rem_svc.Logging.{default_log_file_name}
use rem_svc.Base.Maps.{TextMap, emplace}
use rem_svc.Base.Int.{int_text}
use rem_svc.Logging.{CliVars}

abbrev pub begins : Bytes → Bytes → Bool
begins [] s = true
begins (p ∷ ps) [] = false
begins (p ∷ ps) (c ∷ s) = p == c && begins ps s

abbrev pub found_in : Bytes → Bytes → Bool
found_in [] rx = begins rx []
found_in (c ∷ s) rx = begins rx (c ∷ s) || found_in s rx

-- An opening parenthesis alone is no pattern.
abbrev pub text_engine : RegexEngine
text_engine = record {
  Regex = Bytes;
  compile = λ pat. if bytes_eq pat (codes "(") then none else some pat;
  search = found_in;
}

-- Commands with `ls` in them, but none with `rm`.
abbrev pub policy : Policy text_engine
policy = record { allowlist = codes "ls" ∷ []; denylist = codes "rm" ∷ []; deny_all = false }

-- The commands run so far are the world.
abbrev pub echo : CmdRunner (List Bytes)
echo w cmd cmdtyp cmdusr = (w ++ cmd ∷ [], record { rc = pos 0; out = cmd; err = [] })

abbrev pub idle : State (List Bytes)
idle = record { commands_executed = 0; world = [] }

abbrev pub request : Bytes → RemCmdMsg
request cmd = record empty_cmd { cmd = cmd; tid = pos 7 }

-- `HOME` is set, and nothing else is.
abbrev pub home_only : GetEnv
home_only name = if bytes_eq name (codes "HOME") then some (codes "/root") else none

abbrev pub nothing_set : GetEnv
nothing_set name = none

-- A file with a port, TLS and one token.
abbrev pub ini : IniFile
ini = record {
  exists = true;
  readable = true;
  contains = λ group key.
      bytes_eq key (codes "port")
      || bytes_eq key (codes "enabled")
      || bytes_eq key (codes "cert")
      || bytes_eq key (codes "key");
  to_int = λ group key. pos 4433;
  to_bool = λ group key. true;
  to_text = λ group key. key;
  child_keys = λ group. if bytes_eq group (codes "auth") then codes "alice" ∷ [] else [];
  sort = λ keys. keys;
}

abbrev pub files : Bytes → IniFile
files path = ini

-- The server started with `--config server.ini`, or with no argument.
abbrev pub no_args : Args
no_args = record {
  common = record {
    parse_error = false;
    version = false;
    app_name = codes "RemSvcServer";
    log_file = none;
    debug = none;
    log_level = none;
  };
  config = none;
  port = none;
  tls = none;
  cert = none;
  key = none;
  ca_cert = none;
  cmd_timeout_ms = none;
  allow = none;
  deny = none;
  log_file_override = none;
  log_level_override = none;
}

abbrev pub with_config : Args
with_config = record no_args { config = some (codes "server.ini") }

abbrev pub unset_vars : CliVars
unset_vars = record { log_file = []; log_level = []; dbg_level = negsuc 0 }

-- Every file can be read.
abbrev pub disk : Bytes → Option Bytes
disk path = some path

-- The server started with `--config server.ini`.
abbrev pub setup : Setup
setup = record {
  port = pos 4433;
  tls_config = some (record { cert_file = codes "cert"; key_file = codes "key"; ca_file = [] });
  allowlist = [];
  denylist = [];
  auth_tokens = (codes "alice", codes "alice") ∷ [];
  cmd_timeout_ms = pos 30000;
  cli = record { log_file = codes "RemSvcServer.log"; log_level = []; dbg_level = negsuc 0 };
}

pub starts : startup files home_only with_config unset_vars ≡ continues setup
unfolding startup load_server_config expand_env_vars emplace default_log_file_name bytes_eq
starts = refl

abbrev pub up : GrpcServer text_engine
up = record {
  address = codes "0.0.0.0:" ++ int_text (pos 4433);
  credentials = ssl (codes "key") (codes "cert") [] false;
  auth_processor = some (make_processor setup.auth_tokens);
  policy = make_policy text_engine [] [];
  cmd_timeout_ms = pos 30000;
}

pub builds : make_server text_engine disk true setup ≡ started up
unfolding make_server
builds = refl

-- The world counts rounds of waiting, of which a timer allows three. `alice` is the only user, and a
-- process writes a byte in each of the first two rounds, in which it also ends.
abbrev pub posix : Os ℕ
posix = record {
  windows = false;
  to_argument = λ cmd. cmd;
  pwsh_path = [];
  getpwnam = λ name. if bytes_eq name (codes "alice") then some (1000, 100) else none;
  start = λ w launch. 0;
  wait_for_started = λ w. (w, true);
  close_write_channel = λ w. w;
  has_expired = λ timeout_ms armed w. leb (armed + 3) w;
  wait_for_ready_read = suc;
  read_output = λ w. (w, if leb w 2 then (b'a' + w) ∷ [] else []);
  read_error = λ w. (w, []);
  is_running = λ w. ltb w 2;
  kill = λ w. w;
  wait_for_finished = λ w. w;
  exit_code = λ w. pos 0;
  destroy = λ w. w;
}

abbrev pub after_check : {S A : Type 0} → Bool → Status → S → (S → S × Status × A) → Called S A
after_check true status s h = let (s', st, a) = h s in (s', st, some a)
after_check false status s h = (s, status, none)

abbrev pub in_front :
    {S A : Type 0} → Option (TextMap → Status) → TextMap → S → (S → S × Status × A) → Called S A
in_front none md s h = after_check true status_ok s h
in_front (some p) md s h = after_check (is_ok (p md)) (p md) s h

-- gRPC as it is documented.
abbrev pub documented : {S A : Type 0} → Grpc S A
documented = record {
  call = in_front;
  bare = λ md s h. refl;
  admitted = λ p md s h e. rw e refl;
  refused = λ p md s h e. rw e refl;
}

abbrev pub runners : ℤ → CmdRunner (List Bytes)
runners timeout_ms = echo
