-- ===== src/Server/Guard.antt =====
-- What a server that is up (src/server/RemSvcServer.cc, src/server/GrpcServerThread.cc) is protected
-- by.
use rem_svc.Base.{
  [], ◌++◌, Option, none, some, Bool, true, false, not, Bytes, codes, is_empty, if◌then◌else◌, ◌≡◌,
  ◌⊎◌, refl, sym, ap, ◌∙◌, arith, Bool-cases, inl, inr,
}
use rem_svc.Base.Int.{pos}
use rem_svc.Cli.{given}
use rem_svc.Env.{GetEnv}
use rem_svc.Auth.{make_processor, is_enabled}
use rem_svc.Policy.{RegexEngine}
use rem_svc.Config.{ServerConfig, IniFile, default_config}
use rem_svc.Config.Tokens.{IsTokenMap, load_server_config-IsTokenMap, is_enabled-IsTokenMap}
use rem_svc.Logging.{CliVars}
use rem_svc.Server.{
  Args, TlsConfig, Setup, exits, continues, configure, load_config, startup, Credentials, insecure,
  ssl, GrpcServer, started, choose_credentials, read_file, make_server,
}

-- The token map and the TLS of a setup, from the flags and the configuration.
pub record Follows (args : Args) (cfg : ServerConfig) (setup : Setup) : Type 0 where
  pub tokens : setup.auth_tokens ≡ cfg.auth_tokens
  pub guarded : (is_empty cfg.auth_tokens ≡ true) ⊎ (given args.tls cfg.tls_enabled ≡ true)
  pub tls : setup.tls_config ≡ (
      if given args.tls cfg.tls_enabled
      then some (record {
        cert_file = given args.cert cfg.cert_file;
        key_file = given args.key cfg.key_file;
        ca_file = given args.ca_cert cfg.ca_file;
      })
      else none)

configure-Follows :
    (args : Args) (vars : CliVars) (cfg : ServerConfig) (setup : Setup)
    → configure args vars cfg ≡ continues setup
    → Follows args cfg setup
unfolding configure
configure-Follows args vars cfg setup h = record {
  tokens = ground arith;
  guarded = ground arith;
  tls = ground arith;
}

module _ (files : Bytes → IniFile) (getenv : GetEnv) (args : Args) (vars : CliVars) where
  pub startup_lem : startup files getenv args vars ≡ (
      let (cfg, err) = load_config files getenv args in
      if is_empty err
      then configure args vars cfg
      else exits (pos 1) (codes "Error loading config: " ++ (err ++ codes "\n")))
  unfolding startup
  startup_lem = refl

  pub startup-configure :
      (setup : Setup)
      → startup files getenv args vars ≡ continues setup
      → (configure args vars (load_config files getenv args).0 ≡ continues setup)
        × (is_empty (load_config files getenv args).1 ≡ true)
  startup-configure setup h = (ground (arith, startup_lem), ground (arith, startup_lem))

  load_config-IsTokenMap : IsTokenMap (load_config files getenv args).0.auth_tokens
  load_config-IsTokenMap = elim (Bool-cases (is_empty (given args.config []))) [
    | inl e ↦ unfold load_config in rw e (record { sorted = tt; filled = tt })
    | inr e ↦
        unfold load_config in
        rw e (
          load_server_config-IsTokenMap (files (given args.config [])) getenv (given args.config [])
            default_config (record { sorted = tt; filled = tt }))
  ]

abbrev pub is_ssl : Credentials → Bool
is_ssl insecure = false
is_ssl (ssl key cert root required) = true

abbrev pub requires_client_certificate : Credentials → Bool
requires_client_certificate insecure = false
requires_client_certificate (ssl key cert root required) = required

abbrev pub wants_ca : Option TlsConfig → Bool
wants_ca none = false
wants_ca (some tls) = not (is_empty tls.ca_file)

abbrev pub has_tls : Option TlsConfig → Bool
has_tls none = false
has_tls (some tls) = true

-- Without TLS, `main` goes on only with an empty token map.
pub startup-has_tls :
    (files : Bytes → IniFile) (getenv : GetEnv) (args : Args) (vars : CliVars) (setup : Setup)
    → startup files getenv args vars ≡ continues setup
    → has_tls setup.tls_config ≡ false
    → is_empty setup.auth_tokens ≡ true
startup-has_tls files getenv args vars setup up bare =
    let f =
      configure-Follows args vars (load_config files getenv args).0 setup
        (startup-configure files getenv args vars setup up).0 in
    ground (arith, f.tokens, f.guarded, f.tls, bare)

module _ {engine : RegexEngine} (disk : Bytes → Option Bytes) (builds : Bool) (setup : Setup)
    (srv : GrpcServer engine) where
  -- A server that is constructed has TLS credentials exactly if TLS is configured, demands a client
  -- certificate exactly if a CA file is configured with it, and has the processor of its tokens
  -- attached exactly if TLS is configured.
  pub make_server_security :
      make_server engine disk builds setup ≡ started srv
      → (is_ssl srv.credentials ≡ has_tls setup.tls_config)
        × (requires_client_certificate srv.credentials ≡ wants_ca setup.tls_config)
        × (srv.auth_processor
            ≡ (if has_tls setup.tls_config then some (make_processor setup.auth_tokens) else none))
  unfolding make_server choose_credentials read_file
  make_server_security h = (ground arith, ground arith, ground arith)

  -- Whatever the command line, the file and the environment say: a server that comes up with at least
  -- one token in its configuration talks TLS, and has a processor attached that is enabled.
  pub startup_authenticates :
      (files : Bytes → IniFile) (getenv : GetEnv) (args : Args) (vars : CliVars)
      → startup files getenv args vars ≡ continues setup
      → make_server engine disk builds setup ≡ started srv
      → is_empty setup.auth_tokens ≡ false
      → (is_ssl srv.credentials ≡ true)
        × (srv.auth_processor ≡ some (make_processor setup.auth_tokens))
        × (is_enabled (make_processor setup.auth_tokens) ≡ true)
  startup_authenticates files getenv args vars up built some' =
      let cfg = (load_config files getenv args).0 in
      let f =
        configure-Follows args vars cfg setup
          (startup-configure files getenv args vars setup up).0 in
      let map = load_config-IsTokenMap files getenv args vars in
      let safe = make_server_security built in
      let tls : has_tls setup.tls_config ≡ true =
        ground (arith, f.tokens, f.guarded, f.tls, some') in
      (
        safe.0 ∙ tls,
        safe.2 ∙ rw tls,
        rw f.tokens (
            is_enabled-IsTokenMap cfg.auth_tokens map
            ∙ ap not (ap is_empty (sym f.tokens) ∙ some')),
      )
