-- ===== src/Startup/Started.antt =====
-- The course of a start of the API's process that comes to serving.
use anon_ticket.Base.{
  ◌≡◌, refl, sym, subst, ◌∙◌, ap, inl, inr, Option, Bytes, Result, ok, err, panic, map_err, ◌>>=◌,
  from_result, is_some, Result-cases,
}
use anon_ticket.Config.{ApiConfig, BootstrapConfig, load_api_config}
use anon_ticket.Config.Laws.{and_then-ok, map_err-ok}
use anon_ticket.Env.{Env, World, database}
use anon_ticket.Storage.{IsConnector, connect_storage, prepare_connection, prepared}
use anon_ticket.Storage.Replies.{>>=-eq-ok}
use anon_ticket.Storage.SchemaLaws.{prepare_connection-migrates}
use anon_ticket.Startup.{config, storage, prewarm_hints}
use anon_ticket.Startup.Host.{Host, variable, maybe_load_monitor_config}
use anon_ticket.Startup.Boot.{
  Start, Served, start_telemetry, bloom_of, new_world, open_world, spawn_monitor, bind_listeners,
  serve, run_api,
}

-- A state that was reached without an error.
prepared-ok :
    {E S : Type 0} (x : Result E (Unit {0}) × S) (s : S)
    → prepared x ≡ ok s
    → (u : Unit {0}) × (x.0 ≡ ok u) × (x.1 ≡ s)
prepared-ok (ok u, t) s e = (u, refl, cc)
prepared-ok (err x, t) s e = absurd (cc)
prepared-ok (panic, t) s e = absurd (cc)

module _ {env : Env} (host : Host env) where
  -- What came before the listeners, of a process that serves.
  pub record IsStarted (served : Served host) : Type 0 where
    pub api : ApiConfig env.floats.F64
    pub monitor_cfg : Option BootstrapConfig
    pub api_loaded :
        load_api_config (variable host) env.floats.F64 env.floats.FloatError env.floats.parse_f64
        ≡ ok api
    pub monitor_loaded : maybe_load_monitor_config host ≡ ok monitor_cfg
    pub world_opened : open_world host api ≡ ok served.world
    pub monitor_spawned :
        spawn_monitor host (is_some served.world.bloom) monitor_cfg ≡ ok served.monitor_task

  serve-of :
      (api : ApiConfig env.floats.F64) (cfg : Option BootstrapConfig)
      (handle : host.exporters.PrometheusHandle) (s : Start host) (served : Served host)
      → (serve host api cfg handle s).0 ≡ ok served
      → (open_world host api ≡ ok served.world)
        × (spawn_monitor host (is_some served.world.bloom) cfg ≡ ok served.monitor_task)
  unfolding serve
  serve-of api cfg handle s served went = elim (Result-cases (open_world host api)) [
    | inl (w, opened) ↦ elim (Result-cases (spawn_monitor host (is_some w.bloom) cfg)) [
      | inl (task, spawned) ↦ elim (Result-cases (bind_listeners host api s).0) [
        | inl (u, bound) ↦
            let e : record { world = w; metrics_handle = handle; monitor_task = task } ≡ served =
              cc (rw (opened, ◌>>=◌, spawned, bound) at went) in
            (
              opened ∙ ap (λ (x : Served host). ok x.world) e,
              subst
                  (λ (x : Served host).
                    spawn_monitor host (is_some x.world.bloom) cfg ≡ ok x.monitor_task)
                  e spawned,
            )
        | inr (inl (x, bad)) ↦ absurd (cc (rw (opened, ◌>>=◌, spawned, bad) at went))
        | inr (inr bad) ↦ absurd (cc (rw (opened, ◌>>=◌, spawned, bad) at went))
      ]
      | inr (inl (x, bad)) ↦ absurd (cc (rw (opened, ◌>>=◌, bad) at went))
      | inr (inr bad) ↦ absurd (cc (rw (opened, ◌>>=◌, bad) at went))
    ]
    | inr (inl (x, bad)) ↦ absurd (cc (rw bad at went))
    | inr (inr bad) ↦ absurd (cc (rw bad at went))
  ]

  pub run_api-IsStarted :
      (s : Start host) (served : Served host) → (run_api host s).0 ≡ ok served → IsStarted served
  unfolding run_api
  run_api-IsStarted s served went =
      let loading = map_err config (
        load_api_config (variable host) env.floats.F64 env.floats.FloatError
          env.floats.parse_f64) in
      let (api, first, rest, _) =
        >>=-eq-ok (from_result loading)
          (λ api. from_result (maybe_load_monitor_config host) >>= λ cfg.
            start_telemetry host >>= λ handle. serve host api cfg handle)
          s served went in
      let (cfg, second, rest', _) =
        >>=-eq-ok (from_result (maybe_load_monitor_config host))
          (λ cfg. start_telemetry host >>= λ handle. serve host api cfg handle) s served rest in
      let (handle, _, last, _) =
        >>=-eq-ok (start_telemetry host) (λ handle. serve host api cfg handle) s served rest' in
      let (opened, spawned) = serve-of api cfg handle _ served last in
      record {
        api = api;
        monitor_cfg = cfg;
        api_loaded = map_err-ok config _ api first;
        monitor_loaded = second;
        world_opened = opened;
        monitor_spawned = spawned;
      }

  -- The database that was connected to, the filter that was built, and the state that the hints were
  -- warmed up to.
  pub open_world-of :
      (api : ApiConfig env.floats.F64) (w : World env)
      → open_world host api ≡ ok w
      → (db : env.engine.Db) × (bloom : Option env.hints.Filter) × (u : Unit {0}) × (connect_storage
            host.connector api.database_url
          ≡ ok db)
        × (bloom_of host api ≡ ok bloom)
        × ((prewarm_hints env (new_world host api db bloom)).0 ≡ ok u)
        × ((prewarm_hints env (new_world host api db bloom)).1 ≡ w)
  unfolding open_world
  open_world-of api w e =
      let (db, connected, e₁) =
        and_then-ok (map_err storage (connect_storage host.connector api.database_url)) _ w e in
      let (bloom, built, e₂) = and_then-ok (bloom_of host api) _ w e₁ in
      let (u, warm, same) = prepared-ok (prewarm_hints env (new_world host api db bloom)) w e₂ in
      (db, bloom, u, map_err-ok storage _ db connected, built, warm, same)

  pub connect_storage-kept :
      (lawful : IsConnector host.connector) (url : Bytes) (db : env.engine.Db)
      → connect_storage host.connector url ≡ ok db
      → (d : env.engine.Db) × (host.connector.connect url ≡ ok d)
        × (env.engine.tables db ≡ env.engine.tables d)
  unfolding connect_storage
  connect_storage-kept lawful url db e =
      let (d, connected, e₁) = and_then-ok (map_err database (host.connector.connect url)) _ db e in
      let (u, ready, same) = prepared-ok (prepare_connection host.connector d) db e₁ in
      let ((_, rows, _), _) = prepare_connection-migrates host.connector lawful d in
      (d, map_err-ok database _ d connected, ap (λ x. env.engine.tables x) (sym same) ∙ rows)
