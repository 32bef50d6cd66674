-- ===== src/Tests/Boot.antt =====
-- The theorems on telemetry, on the schema and on the start, applied to that host.
use anon_ticket.Base.{ℕ, ◌≡◌, ◌≢◌, refl, ◌⊎◌, true, false, none, some, [], ◌∷◌, codes, ok, err}
use anon_ticket.Model.{pid_try_from}
use anon_ticket.Config.Numbers.{Text}
use anon_ticket.Config.{ApiConfig, load_api_config}
use anon_ticket.Storage.{prepare_connection}
use anon_ticket.Storage.Moves.{tables_of}
use anon_ticket.Storage.Catalog.{with_schema}
use anon_ticket.Storage.SchemaLaws.{Extends, prepare_connection-migrates}
use anon_ticket.Telemetry.{
  TelemetryConfig, tracing, invalid_log_filter, install_tracing, install_metrics, init_telemetry,
}
use anon_ticket.Telemetry.Laws.{init_telemetry_once, install_tracing_failed}
use anon_ticket.Api.{hint_of, redeem_handler}
use anon_ticket.Api.RedeemBranches.{redeemed}
use anon_ticket.Startup.Host.{variable, env_truthy}
use anon_ticket.Startup.Boot.{Served, run_api}
use anon_ticket.Startup.BootLaws.{run_api-Admits, run_api-redeems, run_api-keeps, run_api-allowed}
use anon_ticket.Tests.Hex.{plain_codec-IsCodec}
use anon_ticket.Tests.Setting.{listed-IsFilter}
use anon_ticket.Tests.Ledger.{
  some_pid, some_text, some_text-parses, some_pid-IsPid, unclaimed_row, ledger_of,
  ledger_of-IsSound, one_payment-HasNoCollision, usable,
}
use anon_ticket.Tests.Host.{
  disk_env, disk_engine-IsEngine, disk_engine-IsReliable, disk_connector,
  disk_connector-IsConnector, stored_disk, plain_exporters, fresh_process, a_host, a_start,
}

abbrev quiet : TelemetryConfig
quiet = record { log_filter = codes "info"; metrics_address = none }

abbrev mute : TelemetryConfig
mute = record { log_filter = []; metrics_address = some (codes "here") }

quiet_starts : (init_telemetry plain_exporters quiet fresh_process).0 ≡ ok 7
unfolding init_telemetry install_tracing install_metrics
quiet_starts = refl

init_telemetry_once_example :
    init_telemetry plain_exporters mute (init_telemetry plain_exporters quiet fresh_process).1
    ≡ (ok 7, (init_telemetry plain_exporters quiet fresh_process).1)
init_telemetry_once_example =
    init_telemetry_once plain_exporters quiet mute fresh_process 7 quiet_starts

mute_fails :
    (install_tracing plain_exporters mute fresh_process).0
    ≡ err (invalid_log_filter (codes "empty"))
unfolding install_tracing
mute_fails = refl

install_tracing_failed_example :
    ((m : Text) × (invalid_log_filter (codes "empty") ≡ invalid_log_filter m)
      × ((install_tracing plain_exporters mute fresh_process).1 ≡ fresh_process))
    ⊎ ((m : Text) × (invalid_log_filter (codes "empty") ≡ tracing m)
        × ((d : TelemetryConfig)
            → install_tracing plain_exporters d
                (install_tracing plain_exporters mute fresh_process).1
              ≡ (ok tt, (install_tracing plain_exporters mute fresh_process).1)))
install_tracing_failed_example =
    install_tracing_failed plain_exporters mute fresh_process (invalid_log_filter (codes "empty"))
      mute_fails

prepare_connection-migrates_example :
    Extends disk_connector disk_connector-IsConnector stored_disk
      (prepare_connection disk_connector stored_disk).1
    × ((u : Unit {0})
        → (prepare_connection disk_connector stored_disk).0 ≡ ok u
        → ((prepare_connection disk_connector stored_disk).1.1 ≡ with_schema [])
          × ((v : Unit {0})
              → (prepare_connection disk_connector
                  (prepare_connection disk_connector stored_disk).1).0
                ≡ ok v
              → (prepare_connection disk_connector
                  (prepare_connection disk_connector stored_disk).1).1.1
                ≡ (prepare_connection disk_connector stored_disk).1.1))
prepare_connection-migrates_example =
    prepare_connection-migrates disk_connector disk_connector-IsConnector stored_disk

abbrev serving : Served a_host
serving = record {
  world = record {
    db = (ledger_of unclaimed_row, with_schema []);
    cache = some_pid.bytes ∷ [];
    bloom = some (some_pid.bytes ∷ []);
    clock_reads = 0;
    metrics = [];
  };
  metrics_handle = 7;
  monitor_task = none;
}

serves : (run_api a_host a_start).0 ≡ ok serving
unfolding run_api pid_try_from
serves = refl

run_api-Admits_example : hint_of disk_env some_pid serving.world ≢ some false
run_api-Admits_example =
    run_api-Admits a_host listed-IsFilter disk_engine-IsEngine a_start serving some_pid
      unclaimed_row serves refl

run_api-redeems_example :
    (redeem_handler disk_env some_text serving.world).0
    ≡ ok (redeemed disk_env (codes "success") some_pid unclaimed_row)
run_api-redeems_example =
    run_api-redeems a_host plain_codec-IsCodec listed-IsFilter disk_engine-IsEngine
      disk_engine-IsReliable a_start serving some_text some_pid unclaimed_row serves
      some_text-parses usable (ledger_of-IsSound unclaimed_row some_pid-IsPid)
      (one_payment-HasNoCollision (ledger_of unclaimed_row) unclaimed_row refl) refl refl

run_api-keeps_example :
    (api : ApiConfig ℕ) × (d : disk_env.engine.Db) × (load_api_config
        (variable a_host)
        ℕ
        ℕ
        (λ _. err 0)
      ≡ ok api)
    × (disk_connector.connect api.database_url ≡ ok d)
    × (tables_of disk_env serving.world ≡ d.0)
run_api-keeps_example =
    run_api-keeps a_host disk_engine-IsEngine disk_connector-IsConnector a_start serving serves

run_api-allowed_example :
    (serving.world.bloom ≡ none → env_truthy a_host "API_ALLOW_NO_BLOOM" ≡ true)
    × (serving.monitor_task ≡ none → env_truthy a_host "API_ALLOW_NO_MONITOR" ≡ true)
run_api-allowed_example = run_api-allowed a_host disk_engine-IsEngine a_start serving serves
