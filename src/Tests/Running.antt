-- ===== src/Tests/Running.antt =====
-- Runs of internal/dependency, internal/observability, internal/runtime and the programs of apps.
use nexus_relay.Apps.HealthProbe
use nexus_relay.Apps.HealthProbe.{Network, default_probe_url, run-readiness_iff}
use nexus_relay.Common.{
  ℕ, ◌≡◌, ◌↔◌, refl, String, true, false, none, some, [], ◌∷◌, is_some, ok, fail_if, or_fail,
  lookup, contains, if◌then◌else◌, ◌==◌,
}
use nexus_relay.Common.Text.{trim_space, is_control}
use nexus_relay.Config.Connection.{
  Database, Redis, gateway_database_settings, parse_database, parse_database_ssl_mode,
}
use nexus_relay.Config.Json.Accepts.{is_ok}
use nexus_relay.Config.Library.{pos}
use nexus_relay.Config.Number.{itoa, atoi}
use nexus_relay.Config.Secret.{
  read_simple_secret, read_secret_bytes, open_protected_file, bounded_text, strip_line_end,
}
use nexus_relay.Config.Setting
use nexus_relay.Config.Service.{
  Observability, parse_logging, parse_observability, parse_otlp_endpoint,
}
use nexus_relay.Dependency.Clients.{Drivers, open_clients, postgres_pool_config, redis_options}
use nexus_relay.Dependency.Clients.Laws.{
  AreOpened, after, left_open, open_clients-AreOpened, open_clients-after,
}
use nexus_relay.HttpServer.{Health, readiness, write_health}
use nexus_relay.HttpServer.Router.{
  Mux, IsMux, route_path, handler, taken, routes, ready_endpoint, metrics_endpoint,
}
use nexus_relay.HttpServer.Router.Labels.{plain_url, bounded_route-handler}
use nexus_relay.Observability.Http.{bounded_route, header, methods}
use nexus_relay.Observability.Http.Writer.{first_status, status_or_ok}
use nexus_relay.Observability.Logging.{Slog, scalar, handle}
use nexus_relay.Observability.Middleware.{Request, middleware, traced}
use nexus_relay.Observability.Middleware.Laws.{LeavesPlain, handle-middleware}
use nexus_relay.Observability.Setup.{Tracing, Telemetry, new_telemetry}
use nexus_relay.Observability.Setup.Laws.{new_telemetry_opens}
use nexus_relay.Tests.Deployed.{found, deployed, machine, production}

-- a driver that opens all, and one whose Redis URL names another database
abbrev pub drivers : ℕ → Drivers
drivers database = record {
  Parsed = String;
  parse_config = λ url. some url.host;
  pool_opens = λ _. true;
  ParsedRedis = String;
  parse_redis_url = λ url. some url;
  database_of = λ _. database;
}

abbrev redis : Redis
redis = record { url = "redis url"; max_connections = 50 }

database_accepted :
    is_ok (parse_database deployed machine production gateway_database_settings) ≡ true
unfolding parse_database parse_database_ssl_mode lookup trim_space fail_if or_fail itoa atoi
    read_simple_secret read_secret_bytes open_protected_file bounded_text strip_line_end is_control
    Setting.value Setting.required_path Setting.is_production_grade Setting.one_of
    Setting.clean_nonempty Setting.integer Setting.duration Setting.in_range
database_accepted = refl

abbrev database : Database
database =
    (found (parse_database deployed machine production gateway_database_settings)
      database_accepted).0

clients_opened : is_ok (open_clients (drivers 0) deployed database redis 3_000_000_000).0 ≡ true
unfolding open_clients postgres_pool_config redis_options
clients_opened = refl

open_clients-AreOpened_example :
    AreOpened
      (drivers 0)
      deployed
      database
      redis
      3_000_000_000
      (found (open_clients (drivers 0) deployed database redis 3_000_000_000).0 clients_opened).0
open_clients-AreOpened_example =
    open_clients-AreOpened (drivers 0) deployed machine production gateway_database_settings redis
      3_000_000_000
      (found (parse_database deployed machine production gateway_database_settings)
        database_accepted).1
      (found (open_clients (drivers 0) deployed database redis 3_000_000_000).0 clients_opened).1

-- the options of Redis are refused, and the pool is closed again
open_clients-after_example :
    after (open_clients (drivers 1) deployed database redis 3_000_000_000).1 []
    ≡ some (left_open (open_clients (drivers 1) deployed database redis 3_000_000_000).0 [])
open_clients-after_example = open_clients-after (drivers 1) deployed database redis 3_000_000_000 []

abbrev pub slog : Slog
slog = record { resolve = λ v. v; to_lower = λ s. s }

abbrev pub tracing : Tracing
tracing = record {
  exporter_error = λ _. none;
  resource_error = none;
  shutdown_error = some "deadline exceeded";
}

observability_accepted : is_ok (parse_observability deployed production) ≡ true
unfolding parse_observability parse_logging parse_otlp_endpoint lookup fail_if Setting.value
    Setting.one_of Setting.boolean
observability_accepted = refl

abbrev observability : Observability
observability = (found (parse_observability deployed production) observability_accepted).0

new_telemetry_opens_example :
    (t : Telemetry) × (new_telemetry slog tracing "gateway" "dev" observability ≡ ok t)
    × (t.exports ≡ observability.otel)
    × (is_some t.metrics ≡ observability.metrics)
new_telemetry_opens_example =
    new_telemetry_opens deployed production slog tracing "gateway" "dev"
      (found (parse_observability deployed production) observability_accepted).1 (λ _. refl) refl

abbrev request : Request
request = record {
  method = "GET";
  path = "/health/ready";
  elapsed = "4";
  trace_id = some "4bf92f3577b34da6a3ce929d0e0e4736";
}

slog-LeavesPlain : LeavesPlain slog
slog-LeavesPlain = record {
  route = refl;
  status = refl;
  duration = refl;
  trace = refl;
  plain = λ _. refl;
}

handle-middleware_example : handle slog (middleware request (header 503 ∷ []) none).log ≡ record {
  message = "http.request.completed";
  attributes =
      record { key = "route"; value = scalar (bounded_route request.method request.path) }
      ∷ record {
        key = "status";
        value = scalar (itoa (status_or_ok (first_status (header 503 ∷ []))));
      }
      ∷ record { key = "duration_ms"; value = scalar request.elapsed }
      ∷ traced request.trace_id;
}
handle-middleware_example = handle-middleware slog request (header 503 ∷ []) none slog-LeavesPlain

-- the probe of a service that is not ready
abbrev network : Network
network = record {
  parse_flags = λ _. ok (record { url = default_probe_url; timeout = pos 3_000_000_000 });
  is_valid_url = λ _. true;
  answer = λ _ _. some (record { status = 503; close_error = none });
}

abbrev stopped : Health
stopped = record { ready = false }

answered :
    network.answer default_probe_url 3_000_000_000
    ≡ some (record { status = (readiness stopped).status; close_error = none })
unfolding readiness write_health
answered = refl

run-readiness_iff_example : (HealthProbe.run network [] ≡ ok tt) ↔ (stopped.ready ≡ true)
run-readiness_iff_example =
    run-readiness_iff network [] (record { url = default_probe_url; timeout = pos 3_000_000_000 })
      3_000_000_000 stopped refl refl refl refl answered

abbrev mux : Mux
mux = record {
  knows = λ method. contains method methods;
  find = λ rs method url.
      if contains method methods then taken method (lookup (route_path url) rs) else none;
}

mux-IsMux : IsMux mux
mux-IsMux = record { knows_get = refl; finds = λ rs method url apart static. refl }

ready_answered : handler mux true "GET" (plain_url "/health/ready") ≡ some ready_endpoint
unfolding routes lookup
ready_answered = refl

-- GET /health%2Flive: the label is the one of liveness, and the router finds no route
escaped_missing :
    (handler mux true "GET" (record { path = "/health/live"; raw_path = "/health%2Flive" }) ≡ none)
    × (bounded_route "GET" "/health/live" ≡ "health.live")
unfolding routes lookup bounded_route
escaped_missing = (refl, refl)

bounded_route-handler_example :
    ((handler mux true "GET" (plain_url "/health/ready") ≡ some ready_endpoint)
      ↔ (bounded_route "GET" "/health/ready" ≡ "health.ready"))
    × ((method : String)
        → (method == "GET") ≡ false
        → handler mux true method (plain_url "/health/ready") ≡ some ready_endpoint
        → (bounded_route method "/health/ready" ≡ "unknown") × (ready_endpoint ≡ metrics_endpoint))
bounded_route-handler_example =
    bounded_route-handler mux true "/health/ready" ready_endpoint mux-IsMux refl
