-- ===== src/Observability/Setup/Laws.antt =====
-- Whether New of internal/observability/observability.go takes settings that the configuration accepted.
use nexus_relay.Common.{
  ◌≡◌, refl, String, Bool, true, false, not, ◌&&◌, Option, none, some, [], ◌∷◌, if◌then◌else◌,
  is_some, ok, or_fail, eq_iff, arith, Bool-cases, inl, inr,
}
use nexus_relay.Common.Ensures.{Ensures, holds, Ensures-ok, Ensures-trivial, ◌≫◌, fail_if-Ensures}
use nexus_relay.Config.Library.{Library, Url}
use nexus_relay.Config.Service.{
  Observability, parse_logging, parse_otlp_endpoint, parse_observability,
}
use nexus_relay.Config.Setting.{Values, one_of, boolean}
use nexus_relay.Observability.Logging.{Slog, scalar, with_attrs}
use nexus_relay.Observability.Setup.{
  Handler, configure_metrics, level_of, format_of, new_logger, Tracing, Telemetry,
  configure_tracing, new_telemetry,
}

-- The settings that New has a logger and an endpoint for.
pub record IsSupported (o : Observability) : Type 0 where
  pub level : is_some (level_of o.log_level) ≡ true
  pub format : is_some (format_of o.log_format) ≡ true
  pub endpoint : o.otel ≡ true → is_some o.otlp_endpoint ≡ true

known_level :
    (level : String)
    → not (one_of level ("debug" ∷ "info" ∷ "warn" ∷ "error" ∷ [])) ≡ false
    → is_some (level_of level) ≡ true
unfolding level_of one_of
known_level level h = ground (
  arith,
  eq_iff level "debug",
  eq_iff level "info",
  eq_iff level "warn",
  eq_iff level "error",
  eq_iff "debug" level,
  eq_iff "info" level,
  eq_iff "warn" level,
  eq_iff "error" level,
)

known_format :
    (format : String)
    → not (one_of format ("json" ∷ "text" ∷ [])) ≡ false
    → is_some (format_of format) ≡ true
unfolding format_of one_of
known_format format h =
    ground (
      arith,
      eq_iff format "json",
      eq_iff format "text",
      eq_iff "json" format,
      eq_iff "text" format,
    )

parse_logging-Ensures : (v : Values) → Ensures IsSupported (parse_logging v)
unfolding parse_logging
parse_logging-Ensures v = fail_if-Ensures _ _ ≫ λ _ level. fail_if-Ensures _ _ ≫ λ _ format.
    holds
      (record { level = known_level _ level; format = known_format _ format; endpoint = λ off. cc })

parse_observability-Ensures :
    (go : Library) (v : Values) → Ensures IsSupported (parse_observability go v)
unfolding parse_observability
parse_observability-Ensures go v = parse_logging-Ensures v ≫ λ logging known.
    Ensures-trivial (boolean v _ _) ≫ λ metrics _. Ensures-trivial (boolean v _ _) ≫ λ otel _.
    Ensures-trivial (parse_otlp_endpoint go _) ≫ λ endpoint _.
    fail_if-Ensures (otel && not (is_some endpoint)) _ ≫ λ _ given.
    holds (record { level = known.level; format = known.format; endpoint = λ on. ground arith })

some_found {ℓ} : {A : Type ℓ} (o : Option A) → is_some o ≡ true → (a : A) × (o ≡ some a)
some_found none h = cc
some_found (some a) h = (a, refl)

logger_opens :
    (slog : Slog) (service version : String) (o : Observability)
    → IsSupported o
    → (h : Handler) × (new_logger slog service version o.log_level o.log_format ≡ ok h)
unfolding new_logger or_fail
logger_opens slog service version o s =
    let (level, e) = some_found (level_of o.log_level) s.level in
    let (format, f) = some_found (format_of o.log_format) s.format in
    (
      record {
        minimum = level;
        format = format;
        attributes = with_attrs slog (
            record { key = "service"; value = scalar service }
            ∷ record { key = "version"; value = scalar version }
            ∷ []);
        groups = [];
      },
      rw (e, f),
    )

tracing_opens :
    (otel : Tracing) (o : Observability) (endpoint : Option Url)
    → o.otlp_endpoint ≡ endpoint
    → IsSupported o
    → ((url : Url) → otel.exporter_error url ≡ none)
    → otel.resource_error ≡ none
    → configure_tracing otel o ≡ ok o.otel
unfolding configure_tracing
tracing_opens otel o none e s exporter resource = ground (arith, s.endpoint, e)
tracing_opens otel o (some url) e s exporter resource = elim (Bool-cases o.otel) [
  | inl on ↦ rw (on, e, exporter url, resource)
  | inr off ↦ rw off
]

has_metrics : (b : Bool) → is_some (if b then some configure_metrics else none) ≡ b
has_metrics true = refl
has_metrics false = refl

supported :
    (slog : Slog) (otel : Tracing) (service version : String) (o : Observability)
    → IsSupported o
    → ((url : Url) → otel.exporter_error url ≡ none)
    → otel.resource_error ≡ none
    → (t : Telemetry) × (new_telemetry slog otel service version o ≡ ok t)
      × (t.exports ≡ o.otel)
      × (is_some t.metrics ≡ o.metrics)
unfolding new_telemetry
supported slog otel service version o s exporter resource =
    let (h, e) = logger_opens slog service version o s in
    let f = tracing_opens otel o o.otlp_endpoint refl s exporter resource in
    (
      record {
        logger = h;
        metrics = if o.metrics then some configure_metrics else none;
        exports = o.otel;
      },
      rw (e, f),
      refl,
      has_metrics o.metrics,
    )

-- New opens the telemetry of settings that the configuration accepted, unless the exporter or the
-- trace resource fails: with metrics and with traces exactly if they are switched on.
pub new_telemetry_opens :
    (go : Library) (v : Values) (slog : Slog) (otel : Tracing) (service version : String)
    {o : Observability}
    → parse_observability go v ≡ ok o
    → ((url : Url) → otel.exporter_error url ≡ none)
    → otel.resource_error ≡ none
    → (t : Telemetry) × (new_telemetry slog otel service version o ≡ ok t)
      × (t.exports ≡ o.otel)
      × (is_some t.metrics ≡ o.metrics)
new_telemetry_opens go v slog otel service version {o} accepted exporter resource =
    supported slog otel service version o
      (Ensures-ok (rw accepted at (parse_observability-Ensures go v))) exporter resource
