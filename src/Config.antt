-- ===== src/Config.antt =====
-- src/server/ServerConfig.{hh,cc}: `ServerConfig` and `loadServerConfig`. What `QFileInfo` and
-- `QSettings` say of the file is a parameter; the configuration is changed in place, so it comes back
-- beside the error too. The empty error text is success.
pub mod Range
pub mod Expected
pub mod Frame
pub mod Tokens
mod Tests
use rem_svc.Base.{
  List, [], ◌∷◌, ◌++◌, Bool, false, not, ◌||◌, Bytes, codes, is_empty, if◌then◌else◌,
}
use rem_svc.Base.Int.{ℤ, pos, negsuc, leb_ℤ, ltb_ℤ, int_text}
use rem_svc.Base.Maps.{TextMap, emplace}
use rem_svc.Env.{GetEnv, expand_env_vars}

pub record ServerConfig : Type 0 where
  pub port : ℤ
  pub cmd_timeout_ms : ℤ
  pub tls_enabled : Bool
  pub cert_file : Bytes
  pub key_file : Bytes
  pub ca_file : Bytes
  pub allowlist : List Bytes
  pub denylist : List Bytes
  pub auth_tokens : TextMap
  pub log_file : Bytes
  pub log_level : Bytes
  pub debug_level : ℤ

-- The initialisers of the members.
abbrev pub default_config : ServerConfig
default_config = record {
  port = pos 50051;
  cmd_timeout_ms = pos 30000;
  tls_enabled = false;
  cert_file = [];
  key_file = [];
  ca_file = [];
  allowlist = [];
  denylist = [];
  auth_tokens = [];
  log_file = [];
  log_level = [];
  debug_level = negsuc 0;
}

-- One file as `QFileInfo::exists`, `QSettings::status`, `contains`, `value(…).toInt()`, `toBool()`,
-- `toString()` and `childKeys()` show it, by group and key, with `QStringList::sort`.
pub record IniFile : Type 0 where
  pub exists : Bool
  pub readable : Bool
  pub contains : Bytes → Bytes → Bool
  pub to_int : Bytes → Bytes → ℤ
  pub to_bool : Bytes → Bytes → Bool
  pub to_text : Bytes → Bytes → Bytes
  pub child_keys : Bytes → List Bytes
  pub sort : List Bytes → List Bytes

abbrev pub server : Bytes
server = codes "server"

abbrev pub tls : Bytes
tls = codes "tls"

abbrev pub allow_group : Bytes
allow_group = codes "allowlist"

abbrev pub deny_group : Bytes
deny_group = codes "denylist"

abbrev pub auth : Bytes
auth = codes "auth"

abbrev pub log : Bytes
log = codes "log"

module _ (ini : IniFile) where
  -- [server]
  pub load_server : ServerConfig → ServerConfig
  load_server cfg = record cfg {
    port =
        if ini.contains server (codes "port") then ini.to_int server (codes "port") else cfg.port;
    cmd_timeout_ms =
        if ini.contains server (codes "cmd_timeout_ms")
        then ini.to_int server (codes "cmd_timeout_ms")
        else cfg.cmd_timeout_ms;
  }

  -- [tls]
  pub load_tls : GetEnv → ServerConfig → ServerConfig
  load_tls getenv cfg = record cfg {
    tls_enabled =
        if ini.contains tls (codes "enabled")
        then ini.to_bool tls (codes "enabled")
        else cfg.tls_enabled;
    cert_file =
        if ini.contains tls (codes "cert")
        then expand_env_vars getenv (ini.to_text tls (codes "cert"))
        else cfg.cert_file;
    key_file =
        if ini.contains tls (codes "key")
        then expand_env_vars getenv (ini.to_text tls (codes "key"))
        else cfg.key_file;
    ca_file =
        if ini.contains tls (codes "ca")
        then expand_env_vars getenv (ini.to_text tls (codes "ca"))
        else cfg.ca_file;
  }

  -- The loop over the sorted keys of a list of patterns.
  pub collect : Bytes → List Bytes → List Bytes → List Bytes
  collect group [] out = out
  collect group (k ∷ ks) out =
      let pat = ini.to_text group k in
      collect group ks (if is_empty pat then out else out ++ pat ∷ [])

  -- The old list is kept if the group has no key.
  pub load_patterns : Bytes → List Bytes → List Bytes
  unfolding collect
  load_patterns group old =
      if is_empty (ini.child_keys group)
      then old
      else collect group (ini.sort (ini.child_keys group)) []

  -- The loop over the identities of [auth].
  pub collect_tokens : GetEnv → List Bytes → TextMap → TextMap
  collect_tokens getenv [] tokens = tokens
  collect_tokens getenv (identity ∷ rest) tokens =
      let token = expand_env_vars getenv (ini.to_text auth identity) in
      collect_tokens getenv rest (if is_empty token then tokens else emplace identity token tokens)

  pub load_tokens : GetEnv → TextMap → TextMap
  unfolding collect_tokens
  load_tokens getenv old =
      if is_empty (ini.child_keys auth) then old else collect_tokens getenv (ini.child_keys auth) []

  -- [log]
  pub load_log : ServerConfig → ServerConfig
  load_log cfg = record cfg {
    log_file =
        if ini.contains log (codes "file") then ini.to_text log (codes "file") else cfg.log_file;
    log_level =
        if ini.contains log (codes "level") then ini.to_text log (codes "level") else cfg.log_level;
    debug_level =
        if ini.contains log (codes "debug_level")
        then ini.to_int log (codes "debug_level")
        else cfg.debug_level;
  }

  -- The groups behind [server], in the order of the source.
  pub load_rest : GetEnv → ServerConfig → ServerConfig
  unfolding load_tls load_patterns load_tokens load_log
  load_rest getenv cfg =
      let secured = load_tls getenv cfg in
      load_log (record secured {
        allowlist = load_patterns allow_group secured.allowlist;
        denylist = load_patterns deny_group secured.denylist;
        auth_tokens = load_tokens getenv secured.auth_tokens;
      })

  unfoldable pub load_server_config : GetEnv → Bytes → ServerConfig → ServerConfig × Bytes
  unfolding load_server load_rest
  load_server_config getenv path cfg =
      let cfg' = load_server cfg in
      if not ini.exists
      then (cfg, codes "config file not found: " ++ path)
      else if not ini.readable
      then (cfg, codes "failed to open config file: " ++ path)
      else if leb_ℤ cfg'.port (pos 0) || ltb_ℤ (pos 65535) cfg'.port
      then (
        cfg',
        codes "config: port must be in range 1-65535 (got " ++ (int_text cfg'.port ++ codes ")"),
      )
      else if leb_ℤ cfg'.cmd_timeout_ms (pos 0)
      then (
        cfg',
        codes "config: cmd_timeout_ms must be positive (got "
            ++ (int_text cfg'.cmd_timeout_ms ++ codes ")"),
      )
      else (load_rest getenv cfg', [])
