-- ===== src/Server/Tests.antt =====
-- Runs of the start of the server (src/server/RemSvcServer.cc).
use rem_svc.Base.{some, true, codes, ◌≡◌, refl}
use rem_svc.Auth.{make_processor, is_enabled}
use rem_svc.Server.{startup}
use rem_svc.Server.Guard.{is_ssl, startup_authenticates}
use rem_svc.Server.Precedence.{InRange, startup-InRange, startup-log_file}
use rem_svc.Samples.{setup, starts, up, builds, files, home_only, with_config, unset_vars, disk}

startup_authenticates_example :
    (is_ssl up.credentials ≡ true)
    × (up.auth_processor ≡ some (make_processor setup.auth_tokens))
    × (is_enabled (make_processor setup.auth_tokens) ≡ true)
startup_authenticates_example =
    startup_authenticates disk true setup up files home_only with_config unset_vars starts builds
      refl

startup-InRange_example : InRange setup.port setup.cmd_timeout_ms
startup-InRange_example =
    startup-InRange files home_only with_config unset_vars setup refl refl starts

startup-log_file_example :
    startup files home_only
      (record with_config {
        common = record with_config.common { log_file = some (codes "other.log") };
      })
      unset_vars
    ≡ startup files home_only with_config unset_vars
startup-log_file_example =
    startup-log_file files home_only with_config unset_vars (some (codes "other.log"))
