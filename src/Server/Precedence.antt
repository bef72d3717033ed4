-- ===== src/Server/Precedence.antt =====
-- How flags, file and defaults combine in `main` of src/server/RemSvcServer.cc.
use rem_svc.Base.{
  [], ◌∷◌, ◌++◌, Option, none, true, false, Bytes, codes, is_empty, if◌then◌else◌, ◌≡◌, refl, sym,
  ap, ◌∙◌, arith, Bool-cases, inl, inr,
}
use rem_svc.Base.Int.{ℤ, pos, ◌≤ℤ◌}
use rem_svc.Cli.{given}
use rem_svc.Env.{GetEnv}
use rem_svc.Config.{ServerConfig, IniFile, default_config, load_server_config}
use rem_svc.Config.Range.{load_server_config_range}
use rem_svc.Logging.{CliVars}
use rem_svc.Server.{Args, Setup, Startup, exits, continues, configure, load_config, startup}
use rem_svc.Server.Guard.{startup_lem, startup-configure}

-- A port and a timeout that the server's configuration may have.
pub record InRange (port timeout_ms : ℤ) : Type 0 where
  pub port_low : pos 1 ≤ℤ port
  pub port_high : port ≤ℤ pos 65535
  pub timeout_low : pos 1 ≤ℤ timeout_ms

no_text : (s : Bytes) → is_empty s ≡ true → s ≡ []
no_text [] h = refl
no_text (x ∷ s) h = cc

configure-numbers :
    (args : Args) (vars : CliVars) (cfg : ServerConfig) (setup : Setup)
    → args.port ≡ none
    → args.cmd_timeout_ms ≡ none
    → configure args vars cfg ≡ continues setup
    → (setup.port ≡ cfg.port) × (setup.cmd_timeout_ms ≡ cfg.cmd_timeout_ms)
unfolding configure
configure-numbers args vars cfg setup p t h = (ground arith, ground arith)

configure-log_file :
    (args : Args) (vars : CliVars) (cfg : ServerConfig) (file : Option Bytes)
    → configure (record args { common = record args.common { log_file = file } }) vars cfg
      ≡ configure args vars cfg
unfolding configure
configure-log_file args vars cfg file = ground arith

module _ (files : Bytes → IniFile) (getenv : GetEnv) (args : Args) (vars : CliVars) where
  load_config-InRange :
      is_empty (load_config files getenv args).1 ≡ true
      → let cfg = (load_config files getenv args).0 in InRange cfg.port cfg.cmd_timeout_ms
  load_config-InRange h = elim (Bool-cases (is_empty (given args.config []))) [
    | inl e ↦
        unfold load_config in
        rw e (record { port_low = omega arith; port_high = omega arith; timeout_low = omega arith })
    | inr e ↦ from_file e (no_text _ h)
  ]
    where
      from_file :
          is_empty (given args.config []) ≡ false
          → (load_config files getenv args).1 ≡ []
          → let cfg = (load_config files getenv args).0 in InRange cfg.port cfg.cmd_timeout_ms
      from_file e none' =
          let path = given args.config [] in
          let same : load_config files getenv args
              ≡ load_server_config (files path) getenv path default_config =
            unfold load_config in rw e in
          rw same (
            let r =
              load_server_config_range (files path) getenv path default_config
                (ap (λ (t : ServerConfig × Bytes). t.1) (sym same) ∙ none') in
            record { port_low = r.0; port_high = r.1; timeout_low = r.2 })

  -- If neither --port nor --cmd-timeout-ms is given, a server that starts has a port from 1 to 65535
  -- and a positive timeout, whatever the file says.
  pub startup-InRange :
      (setup : Setup)
      → args.port ≡ none
      → args.cmd_timeout_ms ≡ none
      → startup files getenv args vars ≡ continues setup
      → InRange setup.port setup.cmd_timeout_ms
  startup-InRange setup p t up =
      let loaded = startup-configure files getenv args vars setup up in
      let cfg = (load_config files getenv args).0 in
      let same = configure-numbers args vars cfg setup p t loaded.0 in
      rw (same.0, same.1) (load_config-InRange loaded.1)

-- The flag --log-file changes nothing: with any value for it, or none, the server starts, or refuses to
-- start, in the same way, with the same variables for the logging.
pub startup-log_file :
    (files : Bytes → IniFile) (getenv : GetEnv) (args : Args) (vars : CliVars) (file : Option Bytes)
    → startup files getenv (record args { common = record args.common { log_file = file } }) vars
      ≡ startup files getenv args vars
startup-log_file files getenv args vars file =
    startup_lem files getenv (record args { common = record args.common { log_file = file } }) vars
    ∙ same
    ∙ sym (startup_lem files getenv args vars)
  where
    cfg : ServerConfig × Bytes
    cfg = load_config files getenv args

    otherwise : Startup
    otherwise = exits (pos 1) (codes "Error loading config: " ++ (cfg.1 ++ codes "\n"))

    same :
        (if is_empty
            (load_config files getenv
              (record args { common = record args.common { log_file = file } })).1
          then configure
              (record args { common = record args.common { log_file = file } })
              vars
              (load_config files getenv
                (record args { common = record args.common { log_file = file } })).0
          else exits (pos 1) (
              codes "Error loading config: "
              ++ ((load_config files getenv
                    (record args { common = record args.common { log_file = file } })).1
                  ++ codes "\n")))
        ≡ (if is_empty cfg.1 then configure args vars cfg.0 else otherwise)
    same =
        unfold load_config in
        ap (λ (t : Startup). if is_empty cfg.1 then t else otherwise)
          (configure-log_file args vars cfg.0 file)
