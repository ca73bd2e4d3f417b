-- ===== src/Observability/Middleware.antt =====
-- HTTPMiddleware of internal/observability/http.go: what a request leaves in the span, the metrics and
-- the log. Numbers that are logged are given by their texts.
pub mod Laws
pub mod Series
use nexus_relay.Common.{ℕ, String, Bool, true, false, Option, none, some, List, [], ◌∷◌, ◌++◌, leb}
use nexus_relay.Config.Number.{itoa}
use nexus_relay.Observability.Http.{
  bounded_route, bounded_method, bounded_status, new_writer, Call, serve,
}
use nexus_relay.Observability.Logging.{Attr, Record, scalar}

-- what is read of a request and of its handling: the milliseconds that passed, and the trace's id if
-- the context of the span is valid
pub record Request : Type 0 where
  pub method : String
  pub path : String
  pub elapsed : String
  pub trace_id : Option String

pub record Span : Type 0 where
  pub name : String
  pub method : String
  pub route : String
  pub status_code : ℕ
  pub is_error : Bool

-- the labels of http_requests_total and of http_request_duration_seconds, the latest first
pub record HttpMetrics : Type 0 where
  pub requests : List (String × String)
  pub latencies : List String

abbrev count : String → String → Option HttpMetrics → Option HttpMetrics
count route status none = none
count route status (some m) =
    some (record { requests = (route, status) ∷ m.requests; latencies = route ∷ m.latencies })

abbrev pub traced : Option String → List Attr
traced none = []
traced (some id) = record { key = "trace_id"; value = scalar id } ∷ []

pub record Observed : Type 0 where
  pub span : Span
  pub metrics : Option HttpMetrics
  pub log : Record

abbrev observed : String → ℕ → Request → Option HttpMetrics → Observed
observed route status request metrics = record {
  span = record {
    name = route;
    method = bounded_method request.method;
    route = route;
    status_code = status;
    is_error = leb 500 status;
  };
  metrics = count route (bounded_status status) metrics;
  log = record {
    message = "http.request.completed";
    attributes =
        (record { key = "route"; value = scalar route }
          ∷ record { key = "status"; value = scalar (itoa status) }
          ∷ record { key = "duration_ms"; value = scalar request.elapsed }
          ∷ [])
        ++ traced request.trace_id;
  };
}

-- `calls` is what the handler calls of its writer
unfoldable pub middleware : Request → List Call → Option HttpMetrics → Observed
middleware request calls metrics =
    observed (bounded_route request.method request.path) (serve calls new_writer).status request
      metrics
