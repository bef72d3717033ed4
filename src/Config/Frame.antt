-- ===== src/Config/Frame.antt =====
-- What `loadServerConfig` (src/server/ServerConfig.cc) leaves alone.
use rem_svc.Base.{
  List, Bool, true, false, ◌&&◌, Bytes, codes, is_empty, ◌≡◌, refl, Bool-cases, ◌⊎◌, inl, inr,
}
use rem_svc.Env.{GetEnv}
use rem_svc.Config.{
  ServerConfig, IniFile, server, tls, allow_group, deny_group, auth, log, load_server, load_tls,
  load_patterns, load_tokens, load_log, load_rest, load_server_config,
}
use rem_svc.Config.Range.{is_loadable, load_server_config-is_loadable}

absent {ℓ} : {P : Type ℓ} (b : Bool) → (b ≡ false → P) → (b ≡ true) ⊎ P
absent true f = inl refl
absent false f = inr (f refl)

absent_group {ℓ} : {P : Type ℓ} (b : Bool) → (b ≡ true → P) → (b ≡ false) ⊎ P
absent_group true f = inr (f refl)
absent_group false f = inl refl

-- For each field, the file has its key (for a list, some key of its group), or the field is the same
-- in both configurations.
pub record KeepsAbsent (ini : IniFile) (old new : ServerConfig) : Type 0 where
  pub port : (ini.contains server (codes "port") ≡ true) ⊎ (new.port ≡ old.port)
  pub cmd_timeout_ms :
      (ini.contains server (codes "cmd_timeout_ms") ≡ true)
      ⊎ (new.cmd_timeout_ms ≡ old.cmd_timeout_ms)
  pub tls_enabled :
      (ini.contains tls (codes "enabled") ≡ true) ⊎ (new.tls_enabled ≡ old.tls_enabled)
  pub cert_file : (ini.contains tls (codes "cert") ≡ true) ⊎ (new.cert_file ≡ old.cert_file)
  pub key_file : (ini.contains tls (codes "key") ≡ true) ⊎ (new.key_file ≡ old.key_file)
  pub ca_file : (ini.contains tls (codes "ca") ≡ true) ⊎ (new.ca_file ≡ old.ca_file)
  pub allowlist : (is_empty (ini.child_keys allow_group) ≡ false) ⊎ (new.allowlist ≡ old.allowlist)
  pub denylist : (is_empty (ini.child_keys deny_group) ≡ false) ⊎ (new.denylist ≡ old.denylist)
  pub auth_tokens : (is_empty (ini.child_keys auth) ≡ false) ⊎ (new.auth_tokens ≡ old.auth_tokens)
  pub log_file : (ini.contains log (codes "file") ≡ true) ⊎ (new.log_file ≡ old.log_file)
  pub log_level : (ini.contains log (codes "level") ≡ true) ⊎ (new.log_level ≡ old.log_level)
  pub debug_level :
      (ini.contains log (codes "debug_level") ≡ true) ⊎ (new.debug_level ≡ old.debug_level)

module _ (ini : IniFile) (getenv : GetEnv) (cfg : ServerConfig) where
  load_patterns-absent :
      (group : Bytes) (old : List Bytes)
      → is_empty (ini.child_keys group) ≡ true
      → load_patterns ini group old ≡ old
  unfolding load_patterns
  load_patterns-absent group old h = rw h

  load_tokens-absent :
      (old : List (Bytes × Bytes))
      → is_empty (ini.child_keys auth) ≡ true
      → load_tokens ini getenv old ≡ old
  unfolding load_tokens
  load_tokens-absent old h = rw h

  KeepsAbsent-refl : KeepsAbsent ini cfg cfg
  KeepsAbsent-refl = record {
    port = inr refl;
    cmd_timeout_ms = inr refl;
    tls_enabled = inr refl;
    cert_file = inr refl;
    key_file = inr refl;
    ca_file = inr refl;
    allowlist = inr refl;
    denylist = inr refl;
    auth_tokens = inr refl;
    log_file = inr refl;
    log_level = inr refl;
    debug_level = inr refl;
  }

  KeepsAbsent-server : KeepsAbsent ini cfg (load_server ini cfg)
  unfolding load_server
  KeepsAbsent-server = record {
    port = absent _ (λ h. rw h);
    cmd_timeout_ms = absent _ (λ h. rw h);
    tls_enabled = inr refl;
    cert_file = inr refl;
    key_file = inr refl;
    ca_file = inr refl;
    allowlist = inr refl;
    denylist = inr refl;
    auth_tokens = inr refl;
    log_file = inr refl;
    log_level = inr refl;
    debug_level = inr refl;
  }

  KeepsAbsent-all : KeepsAbsent ini cfg (load_rest ini getenv (load_server ini cfg))
  unfolding load_server load_tls load_log
  KeepsAbsent-all =
      unfold load_rest in
      record {
        port = absent _ (λ h. rw h);
        cmd_timeout_ms = absent _ (λ h. rw h);
        tls_enabled = absent _ (λ h. rw h);
        cert_file = absent _ (λ h. rw h);
        key_file = absent _ (λ h. rw h);
        ca_file = absent _ (λ h. rw h);
        allowlist = absent_group _ (λ h. load_patterns-absent allow_group cfg.allowlist h);
        denylist = absent_group _ (λ h. load_patterns-absent deny_group cfg.denylist h);
        auth_tokens = absent_group _ (λ h. load_tokens-absent cfg.auth_tokens h);
        log_file = absent _ (λ h. rw h);
        log_level = absent _ (λ h. rw h);
        debug_level = absent _ (λ h. rw h);
      }

  -- Only keys that are in the file change the configuration, whether loading ends with an error or
  -- not.
  pub load_server_config-KeepsAbsent :
      (path : Bytes) → KeepsAbsent ini cfg (load_server_config ini getenv path cfg).0
  load_server_config-KeepsAbsent path =
      rw (load_server_config-is_loadable ini getenv path cfg).1
        (elim (Bool-cases (is_loadable ini getenv path cfg)) [
          | inl e ↦ rw e KeepsAbsent-all
          | inr e ↦ rw e (elim (Bool-cases (ini.exists && ini.readable)) [
            | inl f ↦ rw f KeepsAbsent-server
            | inr f ↦ rw f KeepsAbsent-refl
          ])
        ])
