-- ===== src/Observability/Setup.antt =====
-- internal/observability: the logger of logging.go, and New and Shutdown of observability.go. The
-- exporter, the trace resource and the provider are OpenTelemetry's, the registry is Prometheus'.
pub mod Laws
pub mod Opening
use Prim.Native.String.{◌++◌}
use nexus_relay.Common.{
  ℕ, ◌≡◌, String, Bool, true, false, not, ◌&&◌, Option, none, some, List, [], ◌∷◌, ◌==◌,
  if◌then◌else◌, leb, is_some, plain, setting, Error, Result, ok, err, ◌>>=◌, ◌>>◌, fail_if,
  or_fail,
}
use nexus_relay.Config.Library.{Url}
use nexus_relay.Config.Service.{Observability}
use nexus_relay.Observability.{Metrics}
use nexus_relay.Observability.Logging.{Slog, Attr, Value, scalar, redact_attribute, with_attrs}

-- slog.Level, and the two handlers of slog that write to an output
pub data Level : Type 0 where
  debug info warn error : Level

pub data Format : Type 0 where
  json_lines text_lines : Format

-- A handler of slog: what it drops and how it writes, the attributes given by With so far, and the
-- groups given by WithGroup.
pub record Handler : Type 0 where
  pub minimum : Level
  pub format : Format
  pub attributes : List Attr
  pub groups : List String

unfoldable pub level_of : String → Option Level
level_of level =
    if level == "debug"
    then some debug
    else if level == "info"
    then some info
    else if level == "warn"
    then some warn
    else if level == "error"
    then some error
    else none

unfoldable pub format_of : String → Option Format
format_of format =
    if format == "json" then some json_lines else if format == "text" then some text_lines else none

unfoldable pub new_logger : Slog → String → String → String → String → Result Handler
unfolding level_of format_of
new_logger go service version level format = do
  minimum ← or_fail (level_of level) (plain "unsupported log level")
  handler ← or_fail (format_of format) (plain "unsupported log format")
  ok (record {
    minimum = minimum;
    format = handler;
    attributes = with_attrs go (
        record { key = "service"; value = scalar service }
        ∷ record { key = "version"; value = scalar version }
        ∷ []);
    groups = [];
  })

abbrev rank : Level → ℕ
rank debug = 0
rank info = 1
rank warn = 2
rank error = 3

-- Enabled of the slog handler, to which the redacting one passes on
unfoldable pub is_enabled : Level → Handler → Bool
is_enabled level h = leb (rank h.minimum) (rank level)

unfoldable pub with_group : String → Handler → Handler
with_group name h = record h { groups = name ∷ h.groups }

-- the keys that slog gives a record's time, level and message; `utc` is the time in UTC
unfoldable pub normalize_built_in_attribute : (Value → Value) → Attr → Attr
normalize_built_in_attribute utc attr =
    if attr.key == "time"
    then record { key = "timestamp"; value = utc attr.value }
    else if attr.key == "level"
    then record { key = "severity"; value = attr.value }
    else if attr.key == "msg"
    then record { key = "event"; value = attr.value }
    else attr

-- otlptracehttp.New for a URL, resource.New, and the provider's Shutdown: errors, if any
pub record Tracing : Type 0 where
  pub exporter_error : Url → Option String
  pub resource_error : Option String
  pub shutdown_error : Option String

-- Runtime: its logger, its metrics and whether it has a trace provider that exports
pub record Telemetry : Type 0 where
  pub logger : Handler
  pub metrics : Option Metrics
  pub exports : Bool

abbrev pub no_error : String → Option String → Result (Unit {0})
no_error text none = ok tt
no_error text (some e) = err (setting text e)

-- `none` for the endpoint is a nil pointer, on which String panics.
abbrev pub export_to : Tracing → Option Url → Result Bool
export_to otel none = err (plain "invalid memory address or nil pointer dereference")
export_to otel (some url) = do
  no_error "configure OTLP/HTTP trace exporter:" (otel.exporter_error url)
  no_error "configure trace resource:" otel.resource_error
  ok true

unfoldable pub configure_tracing : Tracing → Observability → Result Bool
configure_tracing otel settings =
    if settings.otel then export_to otel settings.otlp_endpoint else ok false

-- a new registry: gauges at 0, and no observations
abbrev pub configure_metrics : Metrics
configure_metrics = record { dependency_ready = []; service_ready = 0; observations = [] }

unfoldable pub new_telemetry : Slog → Tracing → String → String → Observability → Result Telemetry
new_telemetry go otel service version settings = do
  logger ← new_logger go service version settings.log_level settings.log_format
  exports ← configure_tracing otel settings
  ok (record {
    logger = logger;
    metrics = if settings.metrics then some configure_metrics else none;
    exports = exports;
  })

abbrev pub exporter_starts : Tracing → Bool → Option Url → Bool
exporter_starts otel false endpoint = false
exporter_starts otel true none = false
exporter_starts otel true (some url) = not (is_some (otel.exporter_error url))

abbrev pub is_logger : Result Handler → Bool
is_logger (ok _) = true
is_logger (err _) = false

-- whether New starts an exporter on its way, which a provider takes over later
unfoldable pub opens_exporter : Slog → Tracing → String → String → Observability → Bool
opens_exporter go otel service version settings =
    is_logger (new_logger go service version settings.log_level settings.log_format)
    && exporter_starts otel settings.otel settings.otlp_endpoint

unfoldable pub shutdown : Tracing → Telemetry → Option Error
shutdown otel t =
    if t.exports
    then elim otel.shutdown_error [
      | none ↦ none
      | some e ↦ some (setting "shut down trace provider:" e)
    ]
    else none

-- MetricsHandler: whether there is a handler for the metrics
unfoldable pub metrics_handler : Telemetry → Bool
metrics_handler t = is_some t.metrics

-- InstallBootstrapLogger: the default logger behind it, given the one before it
unfoldable pub install_bootstrap_logger : Slog → String → Handler → Handler
install_bootstrap_logger go service before = elim (new_logger go service "unknown" "info" "json") [
  | ok logger ↦ logger
  | err _ ↦ before
]
