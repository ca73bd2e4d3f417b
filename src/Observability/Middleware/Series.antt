-- ===== src/Observability/Middleware/Series.antt =====
-- The series of the HTTP metrics that HTTPMiddleware of internal/observability/http.go adds to.
use nexus_relay.Common.{
  ℕ, ◌≡◌, refl, ap, suc, String, true, Option, some, List, [], ◌∷◌, contains, All, length,
}
use nexus_relay.Observability.Http.{Call, bounded_route, bounded_status, serve, new_writer}
use nexus_relay.Observability.Http.Labels.{routes, statuses, bounded_labels}
use nexus_relay.Observability.Middleware.{Request, HttpMetrics, middleware}

-- one of the 24 pairs of labels of http_requests_total
abbrev pub IsSeries : String × String → Type 0
IsSeries (route, status) = (contains route routes ≡ true) × (contains status statuses ≡ true)

-- The metrics have a request and a latency for each of so many requests, in few series.
pub record AreBounded (count : ℕ) (m : HttpMetrics) : Type 0 where
  pub requests : All IsSeries m.requests
  pub latencies : All (λ route. contains route routes ≡ true) m.latencies
  pub counted : (length m.requests ≡ count) × (length m.latencies ≡ count)

abbrev pub no_requests : HttpMetrics
no_requests = record { requests = []; latencies = [] }

-- the metrics when these requests have been handled, the latest first
unfoldable pub after_requests : List (Request × List Call) → Option HttpMetrics → Option HttpMetrics
after_requests [] metrics = metrics
after_requests ((request, calls) ∷ handled) metrics =
    (middleware request calls (after_requests handled metrics)).metrics

record Holds (count : ℕ) (metrics : Option HttpMetrics) : Type 0 where
  m : HttpMetrics
  found : metrics ≡ some m
  bounded : AreBounded count m

next_request :
    (request : Request) (calls : List Call) (count : ℕ) (metrics : Option HttpMetrics)
    → Holds count metrics
    → Holds (suc count) (middleware request calls metrics).metrics
unfolding middleware
next_request request calls count metrics h =
    let status = (serve calls new_writer).status in
    let (route, _, class) = bounded_labels request.method request.path status in
    record {
      m = record {
        requests =
            (bounded_route request.method request.path, bounded_status status) ∷ h.m.requests;
        latencies = bounded_route request.method request.path ∷ h.m.latencies;
      };
      found = rw (h.found);
      bounded = record {
        requests = ((route, class), h.bounded.requests);
        latencies = (route, h.bounded.latencies);
        counted = (ap suc h.bounded.counted.0, ap suc h.bounded.counted.1);
      };
    }

after-Holds :
    (handled : List (Request × List Call))
    → Holds (length handled) (after_requests handled (some no_requests))
unfolding after_requests
after-Holds [] = record {
  m = no_requests;
  found = refl;
  bounded = record { requests = tt; latencies = tt; counted = (refl, refl) };
}
after-Holds ((request, calls) ∷ handled) =
    next_request request calls (length handled) _ (after-Holds handled)

-- Whatever requests clients send and whatever their handlers answer, the middleware counts each of
-- them once, in series of four routes and six statuses, and its latency in one of the four routes.
pub after_requests-AreBounded :
    (handled : List (Request × List Call))
    → (m : HttpMetrics) × ((after_requests handled (some no_requests) ≡ some m)
        × AreBounded (length handled) m)
after_requests-AreBounded handled = let h = after-Holds handled in (h.m, (h.found, h.bounded))
