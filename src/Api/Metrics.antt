-- ===== src/Api/Metrics.antt =====
-- crates/api/src/handlers/metrics.rs.
use anon_ticket.Base.{ℕ, codes}
use anon_ticket.Config.Numbers.{Text}
use anon_ticket.Telemetry.{Exporters, TelemetryState, render_metrics}

pub record TextResponse : Type 0 where
  pub code : ℕ
  pub content_type : Text
  pub body : Text

unfoldable pub metrics_handler :
    (x : Exporters) → x.PrometheusHandle → TelemetryState x → TextResponse
unfolding render_metrics
metrics_handler x telemetry s = record {
  code = 200;
  content_type = codes "text/plain; version=0.0.4";
  body = render_metrics x telemetry s;
}
