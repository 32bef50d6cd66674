-- ===== src/Startup/BootLaws.antt =====
-- What a start of the API's process that comes to serving has seen to.
use anon_ticket.Base.{
  ◌≡◌, ◌≢◌, refl, sym, subst, ◌∙◌, ap, inl, inr, Bool, true, false, Option, none, some, Bytes,
  codes, Result, ok, err, panic, unwrap_or, ◌==◌, Bool-cases, Result-cases, Option-cases,
}
use anon_ticket.Model.{IsCodec, PaymentId, parse_pid}
use anon_ticket.Config.{ConfigError, ApiConfig, BootstrapConfig, load_api_config}
use anon_ticket.Services.{IsFilter, unit_range_contains, new_bloom}
use anon_ticket.Database.{IsEngine, IsReliable, find, payment_key, PaymentModel, PaymentStatusDb}
use anon_ticket.Env.{Env}
use anon_ticket.Ledger.Soundness.{IsSound}
use anon_ticket.Storage.{IsConnector, supported}
use anon_ticket.Storage.Moves.{tables_of}
use anon_ticket.Api.{hint_of, redeem_handler}
use anon_ticket.Api.RedeemBranches.{HasNoCollision, redeemed}
use anon_ticket.Api.RedeemAnswers.{redeem_handler-unclaimed}
use anon_ticket.Startup.{build_bloom_filter, default_pid_bloom_entries, default_pid_bloom_fp_rate}
use anon_ticket.Startup.Prewarm.{prewarm_hints-Admits, prewarm_hints-kept}
use anon_ticket.Startup.Host.{
  Host, build_rpc_source, variable, env_truthy, allow_missing_bloom, allow_missing_monitor,
  maybe_load_monitor_config, monitor_or_none,
}
use anon_ticket.Startup.Boot.{Start, Served, bloom_of, new_world, spawn_monitor, run_api}
use anon_ticket.Startup.Started.{run_api-IsStarted, open_world-of, connect_storage-kept}

module _ {env : Env} (host : Host env) where
  -- Once the process serves, its Bloom filter turns away no payment that is stored.
  pub run_api-Admits :
      (filter : IsFilter env.floats env.hints) (engine : IsEngine env.engine) (s : Start host)
      (served : Served host) (pid : PaymentId) (p : PaymentModel)
      → (run_api host s).0 ≡ ok served
      → find payment_key pid.bytes (tables_of env served.world).payments ≡ some p
      → hint_of env pid served.world ≢ some false
  run_api-Admits filter engine s served pid p went found =
      let started = run_api-IsStarted host s served went in
      let (db, bloom, u, _, _, warm, same) =
        open_world-of host started.api served.world started.world_opened in
      subst (λ w. hint_of env pid w ≢ some false) same
        (prewarm_hints-Admits env filter engine (new_world host started.api db bloom) u pid p warm (
          subst (λ w. find payment_key pid.bytes (tables_of env w).payments ≡ some p) (sym same)
            found))

  -- Once the process serves, a stored payment that is not claimed is redeemed by any text of its
  -- payment id, for the token derived from it and its amount: on a sound ledger, over a backend that
  -- can return the row of an update, while no statement fails and the hash has no collision.
  pub run_api-redeems :
      (codec : IsCodec env.codec) (filter : IsFilter env.floats env.hints)
      (engine : IsEngine env.engine) (reliable : IsReliable env.engine) (s : Start host)
      (served : Served host) (text : Bytes) (pid : PaymentId) (p : PaymentModel)
      → (run_api host s).0 ≡ ok served
      → parse_pid env.codec text ≡ ok pid
      → supported (env.engine.backend served.world.db) ≡ ok tt
      → IsSound env.codec (tables_of env served.world)
      → HasNoCollision env.codec (tables_of env served.world)
      → find payment_key pid.bytes (tables_of env served.world).payments ≡ some p
      → p.status ≡ PaymentStatusDb.unclaimed
      → (redeem_handler env text served.world).0 ≡ ok (redeemed env (codes "success") pid p)
  run_api-redeems codec filter engine reliable s served text pid p went parsed usable sound distinct
        found free =
      redeem_handler-unclaimed env codec engine reliable text pid p served.world parsed
        (run_api-Admits filter engine s served pid p went found) usable sound distinct found free

  -- Over a database that does with CREATE TABLE what SQL says, and to whose tables and rows the two
  -- settings of sqlite do nothing, the process serves over the rows of the database that its
  -- configuration names: no row was changed on the way.
  pub run_api-keeps :
      (engine : IsEngine env.engine) (lawful : IsConnector host.connector) (s : Start host)
      (served : Served host)
      → (run_api host s).0 ≡ ok served
      → (api : ApiConfig env.floats.F64) × (d : env.engine.Db) × (load_api_config
            (variable host)
            env.floats.F64
            env.floats.FloatError
            env.floats.parse_f64
          ≡ ok api)
        × (host.connector.connect api.database_url ≡ ok d)
        × (tables_of env served.world ≡ env.engine.tables d)
  unfolding new_world
  run_api-keeps engine lawful s served went =
      let started = run_api-IsStarted host s served went in
      let (db, bloom, u, connected, _, warm, same) =
        open_world-of host started.api served.world started.world_opened in
      let (d, reached, rows) =
        connect_storage-kept host lawful started.api.database_url db connected in
      let (kept, _) = prewarm_hints-kept env engine (new_world host started.api db bloom) u warm in
      (started.api, d, started.api_loaded, reached, ap (tables_of env) (sym same) ∙ kept ∙ rows)

  bloom_of-none :
      (api : ApiConfig env.floats.F64)
      → bloom_of host api ≡ ok none
      → allow_missing_bloom host ≡ true
  unfolding bloom_of build_bloom_filter new_bloom
  bloom_of-none api e =
      let entries = unwrap_or api.pid_bloom_entries default_pid_bloom_entries in
      let fp = unwrap_or api.pid_bloom_fp_rate (default_pid_bloom_fp_rate env.floats) in
      elim (Bool-cases (allow_missing_bloom host)) [
        | inl allowed ↦ allowed
        | inr kept ↦ elim (Bool-cases (entries == 0)) [
          | inl off ↦ absurd (cc (rw (off, kept) at e))
          | inr on ↦ elim (Bool-cases (unit_range_contains env.floats env.hints fp)) [
            | inl inside ↦ elim (Option-cases (env.hints.build_filter fp entries)) [
              | inl broken ↦ absurd (cc (rw (on, inside, broken) at e))
              | inr (b, filter) ↦ absurd (cc (rw (on, inside, filter) at e))
            ]
            | inr outside ↦ absurd (cc (rw (on, outside) at e))
          ]
        ]
      ]

  spawn_monitor-none :
      (b : Bool) (cfg : Option BootstrapConfig) → spawn_monitor host b cfg ≡ ok none → cfg ≡ none
  unfolding spawn_monitor
  spawn_monitor-none b none e = refl
  spawn_monitor-none b (some cfg) e =
      elim (Result-cases (build_rpc_source host cfg.monero_rpc_url)) [
        | inl (source, built) ↦ absurd (cc (rw built at e))
        | inr (inl (x, bad)) ↦ absurd (cc (rw bad at e))
        | inr (inr bad) ↦ absurd (cc (rw bad at e))
      ]

  monitor_or_none-none :
      (r : Result (ConfigError env.floats.FloatError) BootstrapConfig)
      → monitor_or_none host r ≡ ok none
      → allow_missing_monitor host ≡ true
  unfolding monitor_or_none
  monitor_or_none-none (ok cfg) e = absurd (cc e)
  monitor_or_none-none (err x) e = elim (Bool-cases (allow_missing_monitor host)) [
    | inl allowed ↦ allowed
    | inr kept ↦ absurd (cc (rw kept at e))
  ]
  monitor_or_none-none panic e = absurd (cc e)

  -- The process serves without a Bloom filter, or without a monitor, only where the variable that
  -- allows it is set.
  pub run_api-allowed :
      (engine : IsEngine env.engine) (s : Start host) (served : Served host)
      → (run_api host s).0 ≡ ok served
      → (served.world.bloom ≡ none → env_truthy host "API_ALLOW_NO_BLOOM" ≡ true)
        × (served.monitor_task ≡ none → env_truthy host "API_ALLOW_NO_MONITOR" ≡ true)
  unfolding allow_missing_bloom allow_missing_monitor maybe_load_monitor_config new_world
  run_api-allowed engine s served went =
      let started = run_api-IsStarted host s served went in
      let (db, bloom, u, _, built, warm, same) =
        open_world-of host started.api served.world started.world_opened in
      let w = new_world host started.api db bloom in
      let (_, bare) = prewarm_hints-kept env engine w u warm in
      (
        λ no_bloom.
            let none_built : bloom ≡ none = bare (ap (λ x. x.bloom) same ∙ no_bloom) in
            bloom_of-none started.api (built ∙ ap ok none_built),
        λ no_task.
            let no_cfg =
              spawn_monitor-none _ started.monitor_cfg (started.monitor_spawned ∙ ap ok no_task) in
            monitor_or_none-none _ (started.monitor_loaded ∙ ap ok no_cfg),
      )
