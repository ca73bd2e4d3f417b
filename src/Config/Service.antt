-- ===== src/Config/Service.antt =====
-- internal/config/config.go: what every service reads: the shared settings, HTTP, logging and tracing.
use nexus_relay.Common.{
  ℕ, ◌*◌, String, Bool, true, false, not, ◌&&◌, ◌||◌, Option, none, some, [], ◌∷◌, is_some, ◌==◌,
  if◌then◌else◌, plain, Result, ok, ◌>>=◌, ◌>>◌, fail_if,
}
use nexus_relay.Config.Endpoint.{absolute_url}
use nexus_relay.Config.Library.{Library, Url}
use nexus_relay.Config.Number.{itoa}
use nexus_relay.Config.Setting.{
  Values, second, minute, value, clean_nonempty, one_of, duration, integer, boolean,
  validate_environment,
}

pub record SharedDeployment : Type 0 where
  pub environment : String
  pub version : String

pub record HttpSettings : Type 0 where
  pub address : String
  pub port : ℕ
  pub shutdown_grace : ℕ

pub record Observability : Type 0 where
  pub log_level : String
  pub log_format : String
  pub metrics : Bool
  pub otel : Bool
  pub otlp_endpoint : Option Url

unfoldable pub parse_shared : Values → Result SharedDeployment
parse_shared v = do
  validate_environment (value v "NEXUSRELAY_ENV" "development")
  clean_nonempty "NEXUSRELAY_VERSION" (value v "NEXUSRELAY_VERSION" "dev")
  ok (record {
    environment = value v "NEXUSRELAY_ENV" "development";
    version = value v "NEXUSRELAY_VERSION" "dev";
  })

unfoldable pub parse_http : Library → Values → Result HttpSettings
parse_http go v = do
  let bind = value v "HTTP_BIND_ADDRESS" "0.0.0.0"
  fail_if (not (go.is_ip bind)) (plain "HTTP_BIND_ADDRESS must be an IP address")
  port ← integer v "HTTP_PORT" 8080 1 65535
  grace ← duration go v "SHUTDOWN_GRACE_PERIOD" (30 * second) second (5 * minute)
  ok (record { address = go.join_host_port bind (itoa port); port = port; shutdown_grace = grace })

unfoldable pub parse_logging : Values → Result Observability
parse_logging v = do
  let level = value v "LOG_LEVEL" "info"
  fail_if (not (one_of level ("debug" ∷ "info" ∷ "warn" ∷ "error" ∷ [])))
      (plain "LOG_LEVEL must be debug, info, warn, or error")
  let format = value v "LOG_FORMAT" "json"
  fail_if (not (one_of format ("json" ∷ "text" ∷ []))) (plain "LOG_FORMAT must be json or text")
  ok (record {
    log_level = level;
    log_format = format;
    metrics = false;
    otel = false;
    otlp_endpoint = none;
  })

-- the endpoint of the trace exporter, where one is given
unfoldable pub parse_otlp_endpoint : Library → String → Result (Option Url)
parse_otlp_endpoint go raw = if raw == "" then ok none else do
  endpoint ← absolute_url go "OTEL_EXPORTER_OTLP_ENDPOINT" raw
  fail_if (is_some endpoint.user || not (endpoint.raw_query == "") || not (endpoint.fragment == ""))
      (plain "OTEL_EXPORTER_OTLP_ENDPOINT must not contain userinfo, query, or fragment")
  ok (some endpoint)

unfoldable pub parse_observability : Library → Values → Result Observability
parse_observability go v = do
  logging ← parse_logging v
  metrics ← boolean v "METRICS_ENABLED" true
  otel ← boolean v "OTEL_ENABLED" false
  endpoint ← parse_otlp_endpoint go (value v "OTEL_EXPORTER_OTLP_ENDPOINT" "")
  fail_if (otel && not (is_some endpoint))
      (plain "OTEL_EXPORTER_OTLP_ENDPOINT is required when OTEL_ENABLED=true")
  ok (record logging { metrics = metrics; otel = otel; otlp_endpoint = endpoint })
