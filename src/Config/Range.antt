-- ===== src/Config/Range.antt =====
-- Which files `loadServerConfig` (src/server/ServerConfig.cc) accepts, and the ranges it enforces.
use rem_svc.Base.{[], Bool, not, ◌&&◌, ◌||◌, Bytes, is_empty, if◌then◌else◌, ◌≡◌, arith}
use rem_svc.Base.Int.{pos, ◌≤ℤ◌, leb_ℤ, ltb_ℤ}
use rem_svc.Env.{GetEnv}
use rem_svc.Config.{ServerConfig, IniFile, load_server, load_rest, load_server_config}

module _ (ini : IniFile) (getenv : GetEnv) (path : Bytes) (cfg : ServerConfig) where
  -- The file is there, can be read, and leaves the port and the timeout in range.
  unfoldable pub is_loadable : Bool
  is_loadable =
      let cfg' = load_server ini cfg in
      ini.exists
      && (ini.readable
          && (not (leb_ℤ cfg'.port (pos 0) || ltb_ℤ (pos 65535) cfg'.port)
              && not (leb_ℤ cfg'.cmd_timeout_ms (pos 0))))

  -- There is no error text exactly for a file that is there, can be read and leaves both numbers in
  -- range; then every group is loaded, and otherwise no group behind [server] is.
  pub load_server_config-is_loadable :
      (is_empty (load_server_config ini getenv path cfg).1 ≡ is_loadable)
      × ((load_server_config ini getenv path cfg).0 ≡ (
          if is_loadable
          then load_rest ini getenv (load_server ini cfg)
          else if ini.exists && ini.readable
          then load_server ini cfg
          else cfg))
  unfolding load_server_config is_loadable
  load_server_config-is_loadable = ground arith

  -- A configuration loaded without an error has a port from 1 to 65535 and a positive timeout,
  -- whatever the numbers were before.
  pub load_server_config_range :
      (load_server_config ini getenv path cfg).1 ≡ []
      → let cfg' = (load_server_config ini getenv path cfg).0 in
        (pos 1 ≤ℤ cfg'.port) × (cfg'.port ≤ℤ pos 65535) × (pos 1 ≤ℤ cfg'.cmd_timeout_ms)
  unfolding load_server_config load_rest
  load_server_config_range h = ground arith
