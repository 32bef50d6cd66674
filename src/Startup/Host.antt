-- ===== src/Startup/Host.antt =====
-- What the process of the API meets when it starts: crates/api/src/application.rs up to serving, and
-- `build_rpc_source` of crates/monitor/src/worker.rs.
use anon_ticket.Base.{
  Bool, false, ◌||◌, ◌&&◌, Option, none, some, [], ◌∷◌, map, String, Bytes, codes, Result, ok, err,
  panic, map_err, and_then, Action, bytes_eq, if◌then◌else◌,
}
use anon_ticket.Model.{to_ascii_lowercase}
use anon_ticket.Config.Numbers.{Text}
use anon_ticket.Config.{ConfigError, BootstrapConfig, load_bootstrap_config}
use anon_ticket.Env.{Env}
use anon_ticket.Storage.{Connector}
use anon_ticket.Telemetry.{Exporters}
use anon_ticket.Monitor.{MonitorError, rpc}
use anon_ticket.Startup.{BootstrapError, monitor_config, monitor, join}

-- The process variables that are valid Unicode, the crates below, the files and sockets of the
-- system, and the builder of the wallet's client. Each action of the system has the text of its error.
pub record Host (env : Env) : Type 1 where
  pub var : Text → Option Text
  pub exporters : Exporters
  pub connector : Connector env
  pub Source : Type 0
  pub rpc_client : Text → Result Bytes Source
  pub System : Type 0
  -- `#[cfg(unix)]`.
  pub unix : Bool
  pub exists_path : Text → System → Bool
  pub remove_file : Text → Action System Bytes (Unit {0})
  pub bind : Text → Action System Bytes (Unit {0})
  pub bind_uds : Text → Action System Bytes (Unit {0})

-- `eq_ignore_ascii_case`.
abbrev pub eq_ignore_ascii_case : Text → Text → Bool
eq_ignore_ascii_case a b = bytes_eq (map to_ascii_lowercase a) (map to_ascii_lowercase b)

-- `str::strip_suffix`, with the text itself where it has no such suffix.
abbrev pub without_suffix : Text → Text → Text
without_suffix suffix [] = []
without_suffix suffix (c ∷ s) = if bytes_eq (c ∷ s) suffix then [] else c ∷ without_suffix suffix s

abbrev truthy : Option Text → Bool
truthy none = false
truthy (some val) = bytes_eq val (codes "1") || eq_ignore_ascii_case val (codes "true")

module _ {env : Env} (host : Host env) where
  -- A variable by its name.
  abbrev pub variable : String → Option Text
  variable key = host.var (codes key)

  unfoldable pub env_truthy : String → Bool
  unfolding to_ascii_lowercase
  env_truthy key = truthy (variable key)

  unfoldable pub allow_missing_monitor : Bool
  unfolding env_truthy
  allow_missing_monitor = env_truthy "API_ALLOW_NO_MONITOR"

  unfoldable pub allow_missing_bloom : Bool
  unfolding env_truthy
  allow_missing_bloom = env_truthy "API_ALLOW_NO_BLOOM"

  -- The match on the configuration that was loaded.
  unfoldable pub monitor_or_none :
      Result (ConfigError env.floats.FloatError) BootstrapConfig
      → Result (BootstrapError env.floats) (Option BootstrapConfig)
  unfolding allow_missing_monitor
  monitor_or_none (ok cfg) = ok (some cfg)
  monitor_or_none (err e) = if allow_missing_monitor then ok none else err (monitor_config e)
  monitor_or_none panic = panic

  unfoldable pub maybe_load_monitor_config :
      Result (BootstrapError env.floats) (Option BootstrapConfig)
  unfolding load_bootstrap_config monitor_or_none
  maybe_load_monitor_config =
      monitor_or_none
        (load_bootstrap_config variable env.floats.F64 env.floats.FloatError env.floats.parse_f64)

  -- The suffix is taken off the url.
  unfoldable pub build_rpc_source : Text → Result MonitorError host.Source
  build_rpc_source url = map_err rpc (host.rpc_client (without_suffix (codes "/json_rpc") url))

  unfoldable pub cleanup_socket : Text → Action host.System Bytes (Unit {0})
  cleanup_socket path system =
      if host.unix && host.exists_path path system
      then host.remove_file path system
      else (ok tt, system)

  -- `monitor_join`, on what the task ended with, or the text of the error of joining it.
  unfoldable pub monitor_join :
      Result Bytes (Result MonitorError (Unit {0})) → Result (BootstrapError env.floats) (Unit {0})
  monitor_join handle = and_then (map_err join handle) (λ ended. map_err monitor ended)
