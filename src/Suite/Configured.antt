-- ===== src/Suite/Configured.antt =====
-- tst/unit/cpp/ServerConfigTest.cc: `loadServerConfig` on the files that the tests write. How Qt reads
-- a number or a truth value from a text, and how it sorts, is a parameter.
use rem_svc.Base.{
  ℕ, ◌<◌, ◌^◌, List, [], ◌∷◌, none, some, Bool, true, false, ◌&&◌, Bytes, codes, is_empty, bytes_eq,
  bytes_lt, exists_in, length, if◌then◌else◌, ◌≡◌, refl, ap, arith,
}
use rem_svc.Base.Int.{ℤ, pos, nat_text}
use rem_svc.Base.Int.Decimal.{dec_value, dec_value-nat_text}
use rem_svc.Base.Maps.{lookup, emplace}
use rem_svc.Env.{GetEnv, expand_env_vars}
use rem_svc.Config.{ServerConfig, default_config, IniFile, load_server_config}
use rem_svc.Suite.Fakes.{contains}

-- `QVariant::toInt` and `toBool` on a text, and `QStringList::sort`.
record QtText : Type 0 where
  to_int : Bytes → ℤ
  to_bool : Bytes → Bool
  sort : List Bytes → List Bytes
  reads_number : (n : ℕ) → n < 2 ^ 31 → to_int (nat_text n) ≡ pos n
  reads_true : to_bool (codes "true") ≡ true
  sorts_one : (k : Bytes) → sort (k ∷ []) ≡ k ∷ []
  sorts_two : (j k : Bytes) → bytes_lt j k ≡ true → sort (j ∷ k ∷ []) ≡ j ∷ k ∷ []

-- Decimal digits, `true` and lists that are in order already: enough for these facts.
literal_text : QtText
literal_text = record {
  to_int = λ s. pos (dec_value 0 s);
  to_bool = λ s. bytes_eq s (codes "true");
  sort = λ keys. keys;
  reads_number = λ n small. ap pos (dec_value-nat_text n);
  reads_true = unfold bytes_eq in refl;
  sorts_one = λ k. refl;
  sorts_two = λ j k ordered. refl;
}

-- A key of a group, with its value after escapes and blanks are dealt with.
abbrev Entry : Type 0
Entry = Bytes × Bytes × Bytes

abbrev is_key : Bytes → Bytes → Entry → Bool
is_key group key (g, k, v) = bytes_eq g group && bytes_eq k key

unfoldable value_of : Bytes → Bytes → List Entry → Bytes
value_of group key [] = []
value_of group key ((g, k, v) ∷ es) =
    let rest = value_of group key es in if is_key group key (g, k, v) then v else rest

unfoldable keys_of : Bytes → List Entry → List Bytes
keys_of group [] = []
keys_of group ((g, k, v) ∷ es) =
    let rest = keys_of group es in if bytes_eq g group then k ∷ rest else rest

-- No variable is set.
abbrev nothing_set : GetEnv
nothing_set name = none

module _ (qt : QtText) where
  -- `TempFile`: the file with these entries, each group's in alphabetical order, as Qt shows it.
  abbrev temp_file : List Entry → IniFile
  temp_file es = record {
    exists = true;
    readable = true;
    contains = λ group key. exists_in (is_key group key) es;
    to_int = λ group key. qt.to_int (value_of group key es);
    to_bool = λ group key. qt.to_bool (value_of group key es);
    to_text = λ group key. value_of group key es;
    child_keys = λ group. keys_of group es;
    sort = qt.sort;
  }

  abbrev load : GetEnv → List Entry → ServerConfig × Bytes
  load getenv es = load_server_config (temp_file es) getenv (codes "remsvc.ini") default_config

  -- The file is not there.
  abbrev ReturnsErrorWhenFileNotFound : Type 0
  ReturnsErrorWhenFileNotFound =
      let missing : IniFile = record (temp_file []) { exists = false } in
      let (cfg, err) =
        load_server_config missing nothing_set (codes "/nonexistent/path/remsvc.ini")
          default_config in
      (is_empty err ≡ false) × (contains (codes "not found") err ≡ true)

  missing_file : ReturnsErrorWhenFileNotFound
  unfolding load_server_config
  missing_file = (refl, refl)

  number_9090 : qt.to_int (codes "9090") ≡ pos 9090
  unfolding nat_text
  number_9090 = qt.reads_number 9090 (omega arith)

  number_5000 : qt.to_int (codes "5000") ≡ pos 5000
  unfolding nat_text
  number_5000 = qt.reads_number 5000 (omega arith)

  number_1234 : qt.to_int (codes "1234") ≡ pos 1234
  unfolding nat_text
  number_1234 = qt.reads_number 1234 (omega arith)

  number_99999 : qt.to_int (codes "99999") ≡ pos 99999
  unfolding nat_text
  number_99999 = qt.reads_number 99999 (omega arith)

  number_0 : qt.to_int (codes "0") ≡ pos 0
  unfolding nat_text
  number_0 = qt.reads_number 0 (omega arith)

  number_3 : qt.to_int (codes "3") ≡ pos 3
  unfolding nat_text
  number_3 = qt.reads_number 3 (omega arith)

  number_9999 : qt.to_int (codes "9999") ≡ pos 9999
  unfolding nat_text
  number_9999 = qt.reads_number 9999 (omega arith)

  number_10000 : qt.to_int (codes "10000") ≡ pos 10000
  unfolding nat_text
  number_10000 = qt.reads_number 10000 (omega arith)

  abbrev DefaultsPreservedWhenKeysAbsent : Type 0
  DefaultsPreservedWhenKeysAbsent =
      let (cfg, err) = load nothing_set ([]) in
      (is_empty err ≡ true)
      × (cfg.port ≡ pos 50051)
      × (cfg.cmd_timeout_ms ≡ pos 30000)
      × (cfg.tls_enabled ≡ false)
      × (cfg.cert_file ≡ [])
      × (cfg.key_file ≡ [])
      × (cfg.ca_file ≡ [])
      × (cfg.allowlist ≡ [])
      × (cfg.auth_tokens ≡ [])

  defaults_kept : DefaultsPreservedWhenKeysAbsent
  unfolding load_server_config value_of keys_of exists_in bytes_eq
  defaults_kept = (refl, refl, refl, refl, refl, refl, refl, refl, refl)

  abbrev ParsesPort : Type 0
  ParsesPort =
      let (cfg, err) = load nothing_set ((codes "server", codes "port", codes "9090") ∷ []) in
      (is_empty err ≡ true) × (cfg.port ≡ pos 9090)

  parses_port : ParsesPort
  unfolding load_server_config value_of keys_of exists_in bytes_eq
  parses_port = rw (number_9090) (refl, refl)

  abbrev ParsesCmdTimeoutMs : Type 0
  ParsesCmdTimeoutMs =
      let (cfg, err) =
        load nothing_set ((codes "server", codes "cmd_timeout_ms", codes "5000") ∷ []) in
      (is_empty err ≡ true) × (cfg.cmd_timeout_ms ≡ pos 5000)

  parses_timeout : ParsesCmdTimeoutMs
  unfolding load_server_config value_of keys_of exists_in bytes_eq
  parses_timeout = rw (number_5000) (refl, refl)

  abbrev AbsentCmdTimeoutMsKeepsDefault : Type 0
  AbsentCmdTimeoutMsKeepsDefault =
      let (cfg, err) = load nothing_set ((codes "server", codes "port", codes "1234") ∷ []) in
      (is_empty err ≡ true) × (cfg.cmd_timeout_ms ≡ pos 30000)

  timeout_kept : AbsentCmdTimeoutMsKeepsDefault
  unfolding load_server_config value_of keys_of exists_in bytes_eq
  timeout_kept = rw (number_1234) (refl, refl)

  abbrev ParsesTlsEnabled : Type 0
  ParsesTlsEnabled =
      let (cfg, err) = load nothing_set ((codes "tls", codes "enabled", codes "true") ∷ []) in
      (is_empty err ≡ true) × (cfg.tls_enabled ≡ true)

  parses_tls : ParsesTlsEnabled
  unfolding load_server_config value_of keys_of exists_in bytes_eq
  parses_tls = rw (qt.reads_true) (refl, refl)

  abbrev ParsesTlsCertAndKeyPaths : Type 0
  ParsesTlsCertAndKeyPaths =
      let (cfg, err) = load nothing_set (
        (codes "tls", codes "cert", codes "/etc/ssl/server.crt")
        ∷ (codes "tls", codes "enabled", codes "true")
        ∷ (codes "tls", codes "key", codes "/etc/ssl/server.key")
        ∷ []) in
      (is_empty err ≡ true)
      × (cfg.cert_file ≡ codes "/etc/ssl/server.crt")
      × (cfg.key_file ≡ codes "/etc/ssl/server.key")

  parses_cert : ParsesTlsCertAndKeyPaths
  unfolding load_server_config value_of keys_of exists_in bytes_eq expand_env_vars
  parses_cert = (refl, refl, refl)

  abbrev ParsesTlsCaPath : Type 0
  ParsesTlsCaPath =
      let (cfg, err) = load nothing_set ((codes "tls", codes "ca", codes "/etc/ssl/ca.pem") ∷ []) in
      (is_empty err ≡ true) × (cfg.ca_file ≡ codes "/etc/ssl/ca.pem")

  parses_ca : ParsesTlsCaPath
  unfolding load_server_config value_of keys_of exists_in bytes_eq expand_env_vars
  parses_ca = (refl, refl)

  abbrev ParsesAuthTokens : Type 0
  ParsesAuthTokens =
      let (cfg, err) = load nothing_set (
        (codes "auth", codes "airflow-prod", codes "tok-prod")
        ∷ (codes "auth", codes "airflow-staging", codes "tok-staging")
        ∷ []) in
      (is_empty err ≡ true)
      × (length cfg.auth_tokens ≡ 2)
      × (lookup (codes "airflow-prod") cfg.auth_tokens ≡ some (codes "tok-prod"))
      × (lookup (codes "airflow-staging") cfg.auth_tokens ≡ some (codes "tok-staging"))

  parses_tokens : ParsesAuthTokens
  unfolding load_server_config value_of keys_of exists_in bytes_eq expand_env_vars emplace lookup
      bytes_lt
  parses_tokens = (refl, refl, refl, refl)

  abbrev EmptyAuthSectionLeavesMapEmpty : Type 0
  EmptyAuthSectionLeavesMapEmpty =
      let (cfg, err) = load nothing_set ([]) in (is_empty err ≡ true) × (cfg.auth_tokens ≡ [])

  no_tokens : EmptyAuthSectionLeavesMapEmpty
  unfolding load_server_config value_of keys_of exists_in bytes_eq
  no_tokens = (refl, refl)

  abbrev AuthEmptyTokenValueIsSkipped : Type 0
  AuthEmptyTokenValueIsSkipped =
      let (cfg, err) = load nothing_set (
        (codes "auth", codes "bad-id", codes "")
        ∷ (codes "auth", codes "valid-id", codes "real-token")
        ∷ []) in
      (is_empty err ≡ true)
      × (length cfg.auth_tokens ≡ 1)
      × (lookup (codes "valid-id") cfg.auth_tokens ≡ some (codes "real-token"))
      × (lookup (codes "bad-id") cfg.auth_tokens ≡ none)

  empty_token_skipped : AuthEmptyTokenValueIsSkipped
  unfolding load_server_config value_of keys_of exists_in bytes_eq expand_env_vars emplace lookup
      bytes_lt
  empty_token_skipped = (refl, refl, refl, refl)

  abbrev AuthTokenEnvVarExpanded : Type 0
  AuthTokenEnvVarExpanded =
      let (cfg, err) =
        load
          (λ name.
            if bytes_eq name (codes "REMSVC_TEST_TOKEN")
            then some (codes "expanded-secret")
            else none)
          ((codes "auth", codes "my-service", codes "$REMSVC_TEST_TOKEN") ∷ []) in
      (is_empty err ≡ true)
      × (lookup (codes "my-service") cfg.auth_tokens ≡ some (codes "expanded-secret"))

  token_expanded : AuthTokenEnvVarExpanded
  unfolding load_server_config value_of keys_of exists_in bytes_eq expand_env_vars emplace lookup
      bytes_lt
  token_expanded = (refl, refl)

  abbrev AuthTokenBracedEnvVarExpanded : Type 0
  AuthTokenBracedEnvVarExpanded =
      let (cfg, err) =
        load
          (λ name.
            if bytes_eq name (codes "REMSVC_TEST_TOKEN2")
            then some (codes "braced-secret")
            else none)
          ((codes "auth", codes "my-service", codes "${REMSVC_TEST_TOKEN2}") ∷ []) in
      (is_empty err ≡ true)
      × (lookup (codes "my-service") cfg.auth_tokens ≡ some (codes "braced-secret"))

  braced_token_expanded : AuthTokenBracedEnvVarExpanded
  unfolding load_server_config value_of keys_of exists_in bytes_eq expand_env_vars emplace lookup
      bytes_lt
  braced_token_expanded = (refl, refl)

  abbrev ParsesAllowlistPatterns : Type 0
  ParsesAllowlistPatterns =
      let (cfg, err) = load nothing_set (
        (codes "allowlist", codes "1", codes "^echo\\b")
        ∷ (codes "allowlist", codes "2", codes "^dir\\b")
        ∷ []) in
      (is_empty err ≡ true) × (cfg.allowlist ≡ codes "^echo\\b" ∷ codes "^dir\\b" ∷ [])

  parses_allowlist : ParsesAllowlistPatterns
  unfolding load_server_config value_of keys_of exists_in bytes_eq bytes_lt
  parses_allowlist = rw (qt.sorts_two (codes "1") (codes "2") refl) (refl, refl)

  abbrev EmptyAllowlistSectionLeavesListEmpty : Type 0
  EmptyAllowlistSectionLeavesListEmpty =
      let (cfg, err) = load nothing_set ([]) in (is_empty err ≡ true) × (cfg.allowlist ≡ [])

  no_allowlist_entries : EmptyAllowlistSectionLeavesListEmpty
  unfolding load_server_config value_of keys_of exists_in bytes_eq
  no_allowlist_entries = (refl, refl)

  abbrev ParsesDenylistPatterns : Type 0
  ParsesDenylistPatterns =
      let (cfg, err) = load nothing_set (
        (codes "denylist", codes "1", codes "^rm\\b")
        ∷ (codes "denylist", codes "2", codes "^del\\b")
        ∷ []) in
      (is_empty err ≡ true) × (cfg.denylist ≡ codes "^rm\\b" ∷ codes "^del\\b" ∷ [])

  parses_denylist : ParsesDenylistPatterns
  unfolding load_server_config value_of keys_of exists_in bytes_eq bytes_lt
  parses_denylist = rw (qt.sorts_two (codes "1") (codes "2") refl) (refl, refl)

  abbrev EmptyDenylistSectionLeavesListEmpty : Type 0
  EmptyDenylistSectionLeavesListEmpty =
      let (cfg, err) = load nothing_set ([]) in (is_empty err ≡ true) × (cfg.denylist ≡ [])

  no_denylist_entries : EmptyDenylistSectionLeavesListEmpty
  unfolding load_server_config value_of keys_of exists_in bytes_eq
  no_denylist_entries = (refl, refl)

  abbrev InvalidPortReturnsError : Type 0
  InvalidPortReturnsError =
      let (cfg, err) = load nothing_set ((codes "server", codes "port", codes "99999") ∷ []) in
      is_empty err ≡ false

  refuses_port : InvalidPortReturnsError
  unfolding load_server_config value_of keys_of exists_in bytes_eq
  refuses_port = rw (number_99999) refl

  abbrev ZeroCmdTimeoutReturnsError : Type 0
  ZeroCmdTimeoutReturnsError =
      let (cfg, err) =
        load nothing_set ((codes "server", codes "cmd_timeout_ms", codes "0") ∷ []) in
      is_empty err ≡ false

  refuses_timeout : ZeroCmdTimeoutReturnsError
  unfolding load_server_config value_of keys_of exists_in bytes_eq
  refuses_timeout = rw (number_0) refl

  abbrev ParsesLogSettings : Type 0
  ParsesLogSettings =
      let (cfg, err) = load nothing_set (
        (codes "log", codes "debug_level", codes "3")
        ∷ (codes "log", codes "file", codes "mylog.log")
        ∷ (codes "log", codes "level", codes "warn")
        ∷ []) in
      (is_empty err ≡ true)
      × (cfg.log_file ≡ codes "mylog.log")
      × (cfg.log_level ≡ codes "warn")
      × (cfg.debug_level ≡ pos 3)

  parses_log : ParsesLogSettings
  unfolding load_server_config value_of keys_of exists_in bytes_eq
  parses_log = rw (number_3) (refl, refl, refl, refl)

  abbrev FullConfigRoundTrip : Type 0
  FullConfigRoundTrip =
      let (cfg, err) = load nothing_set (
        (codes "server", codes "cmd_timeout_ms", codes "10000")
        ∷ (codes "server", codes "port", codes "9999")
        ∷ (codes "tls", codes "cert", codes "/certs/server.crt")
        ∷ (codes "tls", codes "enabled", codes "true")
        ∷ (codes "tls", codes "key", codes "/certs/server.key")
        ∷ (codes "auth", codes "prod", codes "secret-prod")
        ∷ (codes "allowlist", codes "1", codes "^echo")
        ∷ (codes "log", codes "level", codes "debug")
        ∷ []) in
      (is_empty err ≡ true)
      × (cfg.port ≡ pos 9999)
      × (cfg.cmd_timeout_ms ≡ pos 10000)
      × (cfg.tls_enabled ≡ true)
      × (cfg.cert_file ≡ codes "/certs/server.crt")
      × (lookup (codes "prod") cfg.auth_tokens ≡ some (codes "secret-prod"))
      × (cfg.allowlist ≡ codes "^echo" ∷ [])
      × (cfg.log_level ≡ codes "debug")

  full_config : FullConfigRoundTrip
  unfolding load_server_config value_of keys_of exists_in bytes_eq expand_env_vars emplace lookup
      bytes_lt
  full_config =
      rw (number_9999, number_10000, qt.reads_true, qt.sorts_one (codes "1"))
        (refl, refl, refl, refl, refl, refl, refl, refl)
