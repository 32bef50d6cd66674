-- ===== src/Startup/Standalone.antt =====
-- crates/monitor/src/main.rs: the monitor as a process of its own.
use anon_ticket.Base.{
  none, List, [], codes, Result, ok, map_err, and_then, Action, ◌>>=◌, from_result, lift_err,
  unwrap_or, if◌then◌else◌,
}
use anon_ticket.Config.{ConfigError, BootstrapConfig, load_bootstrap_config}
use anon_ticket.Env.{Env, World}
use anon_ticket.Storage.{connect_storage}
use anon_ticket.Telemetry.{
  TelemetryError, TelemetryState, telemetry_from_env, init_telemetry, is_empty,
}
use anon_ticket.Monitor.{MonitorError, Round, run_monitor}
use anon_ticket.Startup.Host.{Host, variable, build_rpc_source}

-- `MonitorError`, with the two errors that end the process before the loop.
pub data MonitorStartError (F : Type 0) : Type 0 where
  config : ConfigError F → MonitorStartError F
  telemetry : TelemetryError → MonitorStartError F
  monitor : MonitorError → MonitorStartError F

-- What the process ends with: refused, or what `bootstrap` ended with.
pub data Ended (F : Type 0) : Type 0 where
  standalone_disabled : Ended F
  ended : Result (MonitorStartError F) (Unit {0}) → Ended F

module _ {env : Env} (host : Host env) (answers : host.Source → List Round) where
  abbrev F : Type 0
  F = env.floats.FloatError

  -- The monitor over the database; it has no hints to mark.
  abbrev monitor_over :
      BootstrapConfig → host.Source → env.engine.Db → Result (MonitorStartError F) (Unit {0})
  monitor_over cfg source db =
      let world : World env = record {
        db = db;
        cache = env.hints.build_cache 0 0;
        bloom = none;
        clock_reads = 0;
        metrics = [];
      } in
      and_then (map_err monitor (run_monitor env cfg none (answers source) world).0) (λ _. ok tt)

  -- What follows the telemetry.
  abbrev follow : BootstrapConfig → Result (MonitorStartError F) (Unit {0})
  follow cfg =
      and_then
        (map_err (λ e. monitor (MonitorError.storage e))
          (connect_storage host.connector cfg.database_url))
        (λ db.
          and_then (map_err monitor (build_rpc_source host cfg.monero_rpc_url))
            (λ source. monitor_over cfg source db))

  abbrev load : Result (MonitorStartError F) BootstrapConfig
  load = map_err config (
      load_bootstrap_config (variable host) env.floats.F64 env.floats.FloatError
        env.floats.parse_f64)

  -- `bootstrap`.
  unfoldable pub bootstrap : Action (TelemetryState host.exporters) (MonitorStartError F) (Unit {0})
  unfolding load_bootstrap_config telemetry_from_env init_telemetry connect_storage build_rpc_source
      run_monitor
  bootstrap = do
    cfg ← from_result load
    guard ←
        lift_err telemetry
          (init_telemetry host.exporters (telemetry_from_env host.var (codes "MONITOR")))
    from_result (follow cfg)

  -- `main`, with the variable that has to be set for it.
  unfoldable pub standalone_main :
      TelemetryState host.exporters → Ended F × TelemetryState host.exporters
  unfolding bootstrap
  standalone_main s =
      let (r, s') = bootstrap s in
      if is_empty (unwrap_or (variable host "ALLOW_STANDALONE_MONITOR") [])
      then (standalone_disabled, s)
      else (ended r, s')
