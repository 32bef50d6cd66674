-- ===== src/Startup/Boot.antt =====
-- crates/api/src/application.rs: `run`, up to serving.
use anon_ticket.Base.{
  Bool, true, ◌&&◌, not, Option, none, some, [], ◌++◌, Bytes, codes, Result, ok, err, map_err,
  and_then, Action, ◌>>=◌, ◌>>◌, from_result, pure, raise, is_some, unwrap_or, ◌==◌, if◌then◌else◌,
}
use anon_ticket.Config.Numbers.{Text}
use anon_ticket.Config.{ApiConfig, BootstrapConfig, load_api_config}
use anon_ticket.Services.{default_ttl, default_capacity, with_capacity}
use anon_ticket.Env.{Env, World}
use anon_ticket.Storage.{connect_storage, prepared}
use anon_ticket.Telemetry.{TelemetryState, telemetry_from_env, init_telemetry}
use anon_ticket.Monitor.{MonitorHooks}
use anon_ticket.Startup.{
  BootstrapError, config, telemetry, storage, monitor, io, invalid_bloom_config,
  default_pid_bloom_entries, default_pid_bloom_fp_rate, build_bloom_filter, prewarm_hints,
}
use anon_ticket.Startup.Host.{
  Host, variable, allow_missing_bloom, maybe_load_monitor_config, build_rpc_source, cleanup_socket,
}

-- What `run` changes before there is a database: the telemetry of the process, and the system.
pub record Start {env : Env} (host : Host env) : Type 0 where
  pub process : TelemetryState host.exporters
  pub system : host.System

-- What serves once `run` has come so far: the state that the handlers share, the handle of the
-- metrics, and the task of the monitor with its configuration, its source and its hooks.
pub record Served {env : Env} (host : Host env) : Type 0 where
  pub world : World env
  pub metrics_handle : host.exporters.PrometheusHandle
  pub monitor_task : Option (BootstrapConfig × host.Source × MonitorHooks)

module _ {env : Env} (host : Host env) where
  abbrev Boot : Type 0 → Type 0
  Boot A = Action (Start host) (BootstrapError env.floats) A

  -- `init_telemetry`, on the telemetry of the process.
  unfoldable pub start_telemetry : Boot host.exporters.PrometheusHandle
  unfolding telemetry_from_env init_telemetry
  start_telemetry s =
      let (r, process') =
        init_telemetry host.exporters (telemetry_from_env host.var (codes "API")) s.process in
      (map_err telemetry r, record s { process = process' })

  -- An action of the system, with its error as `io`.
  abbrev on_system : Action host.System Bytes (Unit {0}) → Boot (Unit {0})
  on_system m s = let (r, system') = m s.system in (map_err io r, record s { system = system' })

  -- The filter, which has to be there unless it is allowed to be missing.
  unfoldable pub bloom_of :
      ApiConfig env.floats.F64 → Result (BootstrapError env.floats) (Option env.hints.Filter)
  unfolding allow_missing_bloom build_bloom_filter
  bloom_of api =
      let entries = unwrap_or api.pid_bloom_entries default_pid_bloom_entries in
      let fp = unwrap_or api.pid_bloom_fp_rate (default_pid_bloom_fp_rate env.floats) in
      if entries == 0 && not (allow_missing_bloom host)
      then err (
          invalid_bloom_config (
            codes
              "Bloom filter is disabled (API_PID_BLOOM_ENTRIES=0) but API_ALLOW_NO_BLOOM is not set"))
      else build_bloom_filter env.floats env.hints (some entries) (some fp)

  -- The shared state over a database, before the hints are warmed up.
  unfoldable pub new_world :
      ApiConfig env.floats.F64 → env.engine.Db → Option env.hints.Filter → World env
  unfolding with_capacity
  new_world api db bloom = record {
    db = db;
    cache =
        with_capacity env.floats env.hints (unwrap_or api.pid_cache_ttl_secs default_ttl)
          (unwrap_or api.pid_cache_capacity default_capacity);
    bloom = bloom;
    clock_reads = 0;
    metrics = [];
  }

  -- The database, the filter and the cache, with the hints warmed up.
  unfoldable pub open_world :
      ApiConfig env.floats.F64 → Result (BootstrapError env.floats) (World env)
  unfolding connect_storage bloom_of new_world prewarm_hints
  open_world api =
      and_then (map_err storage (connect_storage host.connector api.database_url)) (λ db.
        and_then (bloom_of api) (λ bloom. prepared (prewarm_hints env (new_world api db bloom))))

  -- The task of the monitor, where there is a configuration for it.
  unfoldable pub spawn_monitor :
      Bool
      → Option BootstrapConfig
      → Result (BootstrapError env.floats) (Option (BootstrapConfig × host.Source × MonitorHooks))
  unfolding build_rpc_source
  spawn_monitor has_bloom none = ok none
  spawn_monitor has_bloom (some cfg) =
      and_then (map_err monitor (build_rpc_source host cfg.monero_rpc_url))
        (λ source. ok (some (cfg, source, record { has_cache = true; has_bloom = has_bloom })))

  -- A socket, once what stands in its place was removed.
  unfoldable pub bind_socket : Text → Boot (Unit {0})
  unfolding cleanup_socket
  bind_socket socket = on_system (cleanup_socket host socket) >> on_system (host.bind_uds socket)

  abbrev bind_public : ApiConfig env.floats.F64 → Option Text → Boot (Unit {0})
  unfolding bind_socket
  bind_public api (some socket) = bind_socket socket
  bind_public api none = on_system (host.bind api.api_bind_address)

  abbrev bind_internal : Option Text → Option Text → Boot (Unit {0})
  unfolding bind_socket
  bind_internal (some socket) _ = bind_socket socket
  bind_internal none (some addr) = on_system (host.bind addr)
  bind_internal none none =
      raise (io (codes "internal listener required but no bind target provided"))

  unfoldable pub bind_unix : ApiConfig env.floats.F64 → Boot (Unit {0})
  unfolding bind_socket
  bind_unix api =
      bind_public api api.api_unix_socket
      >> bind_internal api.internal_unix_socket api.internal_bind_address

  -- A socket that the platform does not have; the texts stand before and after its path.
  abbrev refuse_socket : Bytes → Bytes → Option Text → Boot (Unit {0})
  refuse_socket before after none = pure tt
  refuse_socket before after (some socket) = raise (io (before ++ socket ++ after))

  abbrev bind_address : Option Text → Boot (Unit {0})
  bind_address (some addr) = on_system (host.bind addr)
  bind_address none =
      raise
        (io (codes "internal listener required but no TCP bind address provided for this platform"))

  unfoldable pub bind_other : ApiConfig env.floats.F64 → Boot (Unit {0})
  bind_other api =
      let after = codes "' requested but this platform does not support it" in
      refuse_socket (codes "unix socket '") after api.api_unix_socket
      >> refuse_socket (codes "internal unix socket '") after api.internal_unix_socket
      >> on_system (host.bind api.api_bind_address)
      >> bind_address api.internal_bind_address

  unfoldable pub bind_listeners : ApiConfig env.floats.F64 → Boot (Unit {0})
  unfolding bind_unix bind_other
  bind_listeners api = if host.unix then bind_unix api else bind_other api

  -- Everything after the telemetry.
  unfoldable pub serve :
      ApiConfig env.floats.F64
      → Option BootstrapConfig
      → host.exporters.PrometheusHandle
      → Boot (Served host)
  unfolding open_world spawn_monitor bind_listeners
  serve api monitor_cfg handle = do
    world ← from_result (open_world api)
    task ← from_result (spawn_monitor (is_some world.bloom) monitor_cfg)
    bind_listeners api
    pure (record { world = world; metrics_handle = handle; monitor_task = task })

  -- `run`.
  unfoldable pub run_api : Boot (Served host)
  unfolding load_api_config maybe_load_monitor_config start_telemetry serve
  run_api = do
    api ← from_result (
        map_err config (
          load_api_config (variable host) env.floats.F64 env.floats.FloatError
            env.floats.parse_f64))
    monitor_cfg ← from_result (maybe_load_monitor_config host)
    handle ← start_telemetry
    serve api monitor_cfg handle
