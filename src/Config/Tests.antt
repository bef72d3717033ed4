-- ===== src/Config/Tests.antt =====
-- Runs of `loadServerConfig` (src/server/ServerConfig.cc).
use rem_svc.Base.{[], Bytes, codes, bytes_eq, ◌≡◌, refl}
use rem_svc.Config.{default_config, load_server_config}
use rem_svc.Config.Frame.{KeepsAbsent, load_server_config-KeepsAbsent}
use rem_svc.Config.Tokens.{IsTokenMap, load_server_config-IsTokenMap}
use rem_svc.Samples.{ini, home_only}

abbrev path : Bytes
path = codes "server.ini"

loads : (load_server_config ini home_only path default_config).1 ≡ []
unfolding load_server_config bytes_eq
loads = refl

load_server_config-KeepsAbsent_example :
    KeepsAbsent ini default_config (load_server_config ini home_only path default_config).0
load_server_config-KeepsAbsent_example =
    load_server_config-KeepsAbsent ini home_only default_config path

load_server_config-IsTokenMap_example :
    IsTokenMap (load_server_config ini home_only path default_config).0.auth_tokens
load_server_config-IsTokenMap_example =
    load_server_config-IsTokenMap ini home_only path default_config
      (record { sorted = tt; filled = tt })
