-- ===== src/Telemetry.antt =====
-- crates/domain/src/services/telemetry.rs. The crates below it are a parameter.
pub mod Laws
use anon_ticket.Base.{
  ℕ, ◌+◌, ◌-◌, Bool, true, false, ◌&&◌, not, Option, none, some, List, [], ◌∷◌, ◌++◌, map, codes,
  Result, ok, err, panic, Action, ◌>>=◌, ◌>>◌, from_result, pure, lift_err, map_err, and_then, leb,
  unwrap_or, if◌then◌else◌,
}
use anon_ticket.Config.Numbers.{Text, trim}

pub record TelemetryConfig : Type 0 where
  pub log_filter : Text
  pub metrics_address : Option Text

-- `str::to_ascii_uppercase`, of one character.
abbrev pub to_ascii_uppercase : ℕ → ℕ
to_ascii_uppercase c = if leb b'a' c && leb c b'z' then c - 32 else c

abbrev pub is_empty : Text → Bool
is_empty [] = true
is_empty (_ ∷ _) = false

-- A value with something but white space in it is kept as it is.
abbrev pub kept_address : Option Text → Option Text
kept_address none = none
kept_address (some value) = if is_empty (trim value) then none else some value

-- The process variables that are valid Unicode.
module _ (var : Text → Option Text) where
  -- `TelemetryConfig::from_env`.
  unfoldable pub telemetry_from_env : Text → TelemetryConfig
  unfolding trim
  telemetry_from_env prefix =
      let upper = map to_ascii_uppercase (trim prefix) in
      record {
        log_filter = unwrap_or (var (upper ++ codes "_LOG_FILTER")) (codes "info");
        metrics_address = kept_address (var (upper ++ codes "_METRICS_ADDRESS"));
      }

pub data TelemetryError : Type 0 where
  invalid_log_filter tracing metrics : Text → TelemetryError
  invalid_metrics_address : Text → Text → TelemetryError

-- What is called of `tracing_subscriber`, of the standard library's addresses and of
-- `metrics_exporter_prometheus`, on the process's own state of those crates; the texts are those of
-- their errors.
pub record Exporters : Type 1 where
  pub Globals : Type 0
  pub EnvFilter : Type 0
  pub SocketAddr : Type 0
  pub PrometheusHandle : Type 0
  pub try_new : Text → Result Text EnvFilter
  pub try_init : EnvFilter → Globals → Result Text (Unit {0}) × Globals
  pub parse_address : Text → Result Text SocketAddr
  pub install_recorder : Option SocketAddr → Globals → Result Text PrometheusHandle × Globals
  pub render : PrometheusHandle → Globals → Text

-- The two cells of the file, and the state of the crates.
pub record TelemetryState (x : Exporters) : Type 0 where
  pub subscriber_installed : Bool
  pub metrics_handle : Option x.PrometheusHandle
  pub globals : x.Globals

module _ (x : Exporters) where
  -- `SUBSCRIBER_INSTALLED.set(()).is_ok()`.
  abbrev set_installed : Action (TelemetryState x) TelemetryError Bool
  set_installed s = (ok (not s.subscriber_installed), record s { subscriber_installed = true })

  abbrev init_subscriber : x.EnvFilter → Action (TelemetryState x) TelemetryError (Unit {0})
  init_subscriber filter s =
      let (r, g) = x.try_init filter s.globals in (map_err tracing r, record s { globals = g })

  -- The branch of `install_tracing` where no subscriber is installed.
  abbrev install_subscriber : TelemetryConfig → Action (TelemetryState x) TelemetryError (Unit {0})
  install_subscriber config = do
    env_filter ← from_result (map_err invalid_log_filter (x.try_new config.log_filter))
    first ← set_installed
    if first then init_subscriber env_filter else pure tt

  unfoldable pub install_tracing :
      TelemetryConfig → Action (TelemetryState x) TelemetryError (Unit {0})
  install_tracing config s =
      if s.subscriber_installed then (ok tt, s) else install_subscriber config s

  -- The listener of the builder.
  abbrev listener_of : Option Text → Result TelemetryError (Option x.SocketAddr)
  listener_of none = ok none
  listener_of (some addr) =
      and_then (map_err (invalid_metrics_address addr) (x.parse_address addr))
        (λ socket. ok (some socket))

  abbrev install_with :
      Option x.SocketAddr → Action (TelemetryState x) TelemetryError x.PrometheusHandle
  install_with socket s =
      let (r, g) = x.install_recorder socket s.globals in
      (map_err metrics r, record s { globals = g })

  -- A handle that was made is kept in its cell.
  abbrev keep_handle :
      x.PrometheusHandle → Action (TelemetryState x) TelemetryError x.PrometheusHandle
  keep_handle handle s = (ok handle, record s { metrics_handle = some handle })

  -- `get_or_try_init`, on what the cell holds.
  abbrev handle_or_install :
      TelemetryConfig
      → Option x.PrometheusHandle
      → Action (TelemetryState x) TelemetryError x.PrometheusHandle
  handle_or_install config (some handle) = pure handle
  handle_or_install config none = do
    socket ← from_result (listener_of config.metrics_address)
    handle ← install_with socket
    keep_handle handle

  unfoldable pub install_metrics :
      TelemetryConfig → Action (TelemetryState x) TelemetryError x.PrometheusHandle
  install_metrics config s = handle_or_install config s.metrics_handle s

  -- The guard that is returned is the handle.
  unfoldable pub init_telemetry :
      TelemetryConfig → Action (TelemetryState x) TelemetryError x.PrometheusHandle
  unfolding install_tracing install_metrics
  init_telemetry config = install_tracing config >> install_metrics config

  -- `TelemetryGuard::render_metrics`.
  unfoldable pub render_metrics : x.PrometheusHandle → TelemetryState x → Text
  render_metrics handle s = x.render handle s.globals
