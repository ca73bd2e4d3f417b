-- ===== src/Observability/Setup/Opening.antt =====
-- When New of internal/observability/observability.go leaves an exporter without a provider.
use nexus_relay.Common.{
  ◌≡◌, refl, String, Bool, true, false, ◌&&◌, Option, none, some, is_some, if◌then◌else◌, Error,
  Result, ok, err, ◌>>=◌, Option-cases, inl, inr, ◌⊎◌,
}
use nexus_relay.Config.Library.{Url}
use nexus_relay.Config.Service.{Observability}
use nexus_relay.Observability.{Metrics}
use nexus_relay.Observability.Logging.{Slog}
use nexus_relay.Observability.Setup.{
  Handler, Tracing, Telemetry, new_telemetry, new_logger, configure_tracing, export_to,
  exporter_starts, opens_exporter,
}

Result-cases {ℓ} :
    {A : Type ℓ} (r : Result A) → ((a : A) × (r ≡ ok a)) ⊎ ((e : Error) × (r ≡ err e))
Result-cases (ok a) = inl (a, refl)
Result-cases (err e) = inr (e, refl)

-- What New comes back with, by whether it started an exporter and whether the trace resource fails.
pub data Opening (starts resource_fails : Bool) : Result Telemetry → Type 0 where
  opens :
      {t : Telemetry}
      → t.exports ≡ starts
      → (starts && resource_fails) ≡ false
      → Opening starts resource_fails (ok t)
  refuses :
      {e : Error} → (starts && resource_fails) ≡ starts → Opening starts resource_fails (err e)

logger-Opening :
    (otel : Tracing) (o : Observability) (m : Option Metrics) (h : Handler) (on : Bool)
    (endpoint : Option Url)
    → Opening (exporter_starts otel on endpoint) (is_some otel.resource_error) (do
      exports ← if on then export_to otel endpoint else ok false
      ok (record { logger = h; metrics = m; exports = exports }))
logger-Opening otel o m h false endpoint = opens refl refl
logger-Opening otel o m h true none = refuses refl
logger-Opening otel o m h true (some url) = elim (Option-cases (otel.exporter_error url)) [
  | inl works ↦ elim (Option-cases otel.resource_error) [
    | inl fine ↦ rw (works, fine) (opens refl refl)
    | inr (e, fails) ↦ rw (works, fails) (refuses refl)
  ]
  | inr (e, fails) ↦ rw fails (refuses refl)
]

pub new_telemetry-Opening :
    (slog : Slog) (otel : Tracing) (service version : String) (o : Observability)
    → Opening
        (opens_exporter slog otel service version o)
        (is_some otel.resource_error)
        (new_telemetry slog otel service version o)
unfolding new_telemetry opens_exporter configure_tracing
new_telemetry-Opening slog otel service version o =
    elim (Result-cases (new_logger slog service version o.log_level o.log_format)) [
      | inl (h, e) ↦ rw e (logger-Opening otel o _ h o.otel o.otlp_endpoint)
      | inr (x, e) ↦ rw e (refuses refl)
    ]
