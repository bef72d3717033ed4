-- ===== src/Config/Expected.antt =====
-- The configuration that `loadServerConfig` (src/server/ServerConfig.cc) must read from a file, told
-- key by key.
use rem_svc.Base.{List, [], ◌∷◌, Bool, ◌&&◌, Bytes, codes, is_empty, if◌then◌else◌}
use rem_svc.Base.Int.{ℤ, pos, leb_ℤ, ltb_ℤ}
use rem_svc.Base.Maps.{TextMap, emplace}
use rem_svc.Env.{GetEnv, expand_env_vars}
use rem_svc.Config.{ServerConfig, IniFile}

-- Pairs put into a map in turn; the first of a key stays.
unfoldable pub emplace_all : TextMap → TextMap → TextMap
emplace_all [] m = m
emplace_all ((k, v) ∷ pairs) m = emplace_all pairs (emplace k v m)

module _ (ini : IniFile) where
  -- The value of a key, or what there was before.
  abbrev pub int_of : Bytes → Bytes → ℤ → ℤ
  int_of group key old = if ini.contains group key then ini.to_int group key else old

  abbrev pub bool_of : Bytes → Bytes → Bool → Bool
  bool_of group key old = if ini.contains group key then ini.to_bool group key else old

  abbrev pub text_of : Bytes → Bytes → Bytes → Bytes
  text_of group key old = if ini.contains group key then ini.to_text group key else old

  -- The texts of some keys of a group that are not empty, in the order of the keys.
  unfoldable pub texts : Bytes → List Bytes → List Bytes
  texts group [] = []
  texts group (k ∷ ks) =
      let rest = texts group ks in
      if is_empty (ini.to_text group k) then rest else ini.to_text group k ∷ rest

  -- The patterns of a group, or those before if the group has no key.
  unfoldable pub patterns_of : Bytes → List Bytes → List Bytes
  unfolding texts
  patterns_of group old =
      if is_empty (ini.child_keys group) then old else texts group (ini.sort (ini.child_keys group))

  module _ (getenv : GetEnv) where
    -- The same with the variables of the environment put in.
    abbrev pub path_of : Bytes → Bytes → Bytes → Bytes
    path_of group key old =
        if ini.contains group key then expand_env_vars getenv (ini.to_text group key) else old

    -- The identities with a token that is not empty once it is expanded.
    unfoldable pub owners : List Bytes → TextMap
    owners [] = []
    owners (identity ∷ identities) =
        let rest = owners identities in
        let token = expand_env_vars getenv (ini.to_text (codes "auth") identity) in
        if is_empty token then rest else (identity, token) ∷ rest

    unfoldable pub tokens_of : TextMap → TextMap
    unfolding emplace_all owners
    tokens_of old =
        if is_empty (ini.child_keys (codes "auth"))
        then old
        else emplace_all (owners (ini.child_keys (codes "auth"))) []

    module _ (cfg : ServerConfig) where
      abbrev pub port_read : ℤ
      port_read = int_of (codes "server") (codes "port") cfg.port

      abbrev pub timeout_read : ℤ
      timeout_read = int_of (codes "server") (codes "cmd_timeout_ms") cfg.cmd_timeout_ms

      -- What a file is accepted for.
      unfoldable pub is_accepted : Bool
      is_accepted =
          ini.exists
          && ini.readable
          && (ltb_ℤ (pos 0) port_read && leb_ℤ port_read (pos 65535))
          && ltb_ℤ (pos 0) timeout_read

      unfoldable pub expected : ServerConfig
      unfolding patterns_of tokens_of
      expected = record {
        port = port_read;
        cmd_timeout_ms = timeout_read;
        tls_enabled = bool_of (codes "tls") (codes "enabled") cfg.tls_enabled;
        cert_file = path_of (codes "tls") (codes "cert") cfg.cert_file;
        key_file = path_of (codes "tls") (codes "key") cfg.key_file;
        ca_file = path_of (codes "tls") (codes "ca") cfg.ca_file;
        allowlist = patterns_of (codes "allowlist") cfg.allowlist;
        denylist = patterns_of (codes "denylist") cfg.denylist;
        auth_tokens = tokens_of cfg.auth_tokens;
        log_file = text_of (codes "log") (codes "file") cfg.log_file;
        log_level = text_of (codes "log") (codes "level") cfg.log_level;
        debug_level = int_of (codes "log") (codes "debug_level") cfg.debug_level;
      }

      -- The configuration that is left, the port and the timeout of a refused file included.
      unfoldable pub left : ServerConfig
      unfolding is_accepted expected
      left =
          if is_accepted
          then expected
          else if ini.exists && ini.readable
          then record cfg { port = port_read; cmd_timeout_ms = timeout_read }
          else cfg
