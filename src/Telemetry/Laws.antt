-- ===== src/Telemetry/Laws.antt =====
-- Telemetry is set up once.
use anon_ticket.Base.{
  ◌≡◌, refl, sym, subst, ◌∙◌, ap, inl, inr, true, Option, none, some, ok, err, ◌>>=◌, ◌⊎◌,
  Bool-cases, Result-cases,
}
use anon_ticket.Config.Numbers.{Text}
use anon_ticket.Storage.Replies.{>>=-eq-ok}
use anon_ticket.Telemetry.{
  TelemetryConfig, TelemetryError, tracing, invalid_log_filter, Exporters, TelemetryState,
  install_tracing, install_metrics, init_telemetry, listener_of, handle_or_install, install_with,
}

module _ (x : Exporters) where
  install_tracing-installed :
      (c : TelemetryConfig) (s : TelemetryState x) (u : Unit {0})
      → (install_tracing x c s).0 ≡ ok u
      → (install_tracing x c s).1.subscriber_installed ≡ true
  unfolding install_tracing
  install_tracing-installed c s u went = elim (Bool-cases s.subscriber_installed) [
    | inl old ↦ rw old refl
    | inr new ↦ elim (Result-cases (x.try_new c.log_filter)) [
      | inl (f, read) ↦ rw (new, read) refl
      | inr (inl (e, bad)) ↦ absurd (cc (rw (new, bad) at went))
      | inr (inr bad) ↦ absurd (cc (rw (new, bad) at went))
    ]
  ]

  handle_or_install-kept :
      (c : TelemetryConfig) (o : Option x.PrometheusHandle) (s : TelemetryState x)
      (h : x.PrometheusHandle)
      → s.metrics_handle ≡ o
      → (handle_or_install x c o s).0 ≡ ok h
      → ((handle_or_install x c o s).1.metrics_handle ≡ some h)
        × ((handle_or_install x c o s).1.subscriber_installed ≡ s.subscriber_installed)
  handle_or_install-kept c (some old) s h is went = (is ∙ ap some (cc went), refl)
  handle_or_install-kept c none s h is went =
      elim (Result-cases (listener_of x c.metrics_address)) [
        | inl (socket, read) ↦ elim (Result-cases (x.install_recorder socket s.globals).0) [
          | inl (made, done') ↦
              let e : made ≡ h = cc (rw (read, ◌>>=◌, install_with, done') at went) in
              rw (read, ◌>>=◌, install_with, done') (ap some e, refl)
          | inr (inl (e, bad)) ↦ absurd (cc (rw (read, ◌>>=◌, install_with, bad) at went))
          | inr (inr bad) ↦ absurd (cc (rw (read, ◌>>=◌, install_with, bad) at went))
        ]
        | inr (inl (e, bad)) ↦ absurd (cc (rw bad at went))
        | inr (inr bad) ↦ absurd (cc (rw bad at went))
      ]

  install_metrics-kept :
      (c : TelemetryConfig) (s : TelemetryState x) (h : x.PrometheusHandle)
      → (install_metrics x c s).0 ≡ ok h
      → ((install_metrics x c s).1.metrics_handle ≡ some h)
        × ((install_metrics x c s).1.subscriber_installed ≡ s.subscriber_installed)
  unfolding install_metrics
  install_metrics-kept c s h went = handle_or_install-kept c s.metrics_handle s h refl went

  -- A process in which both cells are filled.
  install_again :
      (d : TelemetryConfig) (s : TelemetryState x) (h : x.PrometheusHandle)
      → s.subscriber_installed ≡ true
      → s.metrics_handle ≡ some h
      → init_telemetry x d s ≡ (ok h, s)
  unfolding init_telemetry install_tracing install_metrics
  install_again d s h on held = rw (on, held) refl

  -- Once telemetry was set up, setting it up again, under any configuration, returns the same handle
  -- and changes nothing.
  pub init_telemetry_once :
      (c d : TelemetryConfig) (s : TelemetryState x) (h : x.PrometheusHandle)
      → (init_telemetry x c s).0 ≡ ok h
      → init_telemetry x d (init_telemetry x c s).1 ≡ (ok h, (init_telemetry x c s).1)
  unfolding init_telemetry
  init_telemetry_once c d s h went =
      let (u, first, second, same) =
        >>=-eq-ok (install_tracing x c) (λ _. install_metrics x c) s h went in
      let s' = (install_tracing x c s).1 in
      let (held, kept) = install_metrics-kept c s' h second in
      let again =
        install_again d (install_metrics x c s').1 h (kept ∙ install_tracing-installed c s u first)
          held in
      subst (λ v. init_telemetry x d v ≡ (ok h, v)) (sym (ap (λ y. y.1) same)) again

  -- A filter that does not parse changes nothing, so that it can be put right; a subscriber that could
  -- not be set is never tried again, and the next call goes on as if it were there.
  pub install_tracing_failed :
      (c : TelemetryConfig) (s : TelemetryState x) (e : TelemetryError)
      → (install_tracing x c s).0 ≡ err e
      → ((m : Text) × (e ≡ invalid_log_filter m) × ((install_tracing x c s).1 ≡ s))
        ⊎ ((m : Text) × (e ≡ tracing m)
            × ((d : TelemetryConfig)
                → install_tracing x d (install_tracing x c s).1
                  ≡ (ok tt, (install_tracing x c s).1)))
  unfolding install_tracing
  install_tracing_failed c s e went = elim (Bool-cases s.subscriber_installed) [
    | inl old ↦ absurd (cc (rw old at went))
    | inr new ↦ elim (Result-cases (x.try_new c.log_filter)) [
      | inl (f, read) ↦ elim (Result-cases (x.try_init f s.globals).0) [
        | inl (u, set) ↦ absurd (cc (rw (new, read, set) at went))
        | inr (inl (m, bad)) ↦
            inr (m, sym (cc (rw (new, read, bad) at went)), λ d. rw (new, read) refl)
        | inr (inr bad) ↦ absurd (cc (rw (new, read, bad) at went))
      ]
      | inr (inl (m, bad)) ↦ inl (m, sym (cc (rw (new, bad) at went)), rw (new, bad) refl)
      | inr (inr bad) ↦ absurd (cc (rw (new, bad) at went))
    ]
  ]
