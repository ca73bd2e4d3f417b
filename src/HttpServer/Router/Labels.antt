-- ===== src/HttpServer/Router/Labels.antt =====
-- The route labels of internal/observability/http.go against the routes of internal/httpserver.
use mathlib.Core.Path.{subst}
use nexus_relay.Common.{
  ◌≡◌, refl, sym, ap, ◌∙◌, ◌⊎◌, String, Bool, true, false, Option, none, some, lookup,
  HasDistinctKeys, arith, eq_iff, ◌==◌, ◌↔◌, Bool-cases, inl, inr, if◌then◌else◌,
}
use nexus_relay.HttpServer.Router.{
  Mux, IsMux, Url, AreStatic, is_static, route_path, handler, routes, taken, Endpoint,
  live_endpoint, ready_endpoint, metrics_endpoint,
}
use nexus_relay.Observability.Http.{bounded_route}

routes-HasDistinctKeys : (has_metrics : Bool) → HasDistinctKeys (routes has_metrics)
unfolding routes lookup
routes-HasDistinctKeys true = (refl, (refl, (refl, tt)))
routes-HasDistinctKeys false = (refl, (refl, tt))

-- the label that names an endpoint
abbrev pub label_of : Endpoint → String
label_of live_endpoint = "health.live"
label_of ready_endpoint = "health.ready"
label_of metrics_endpoint = "metrics"

routes-AreStatic : (has_metrics : Bool) → AreStatic (routes has_metrics)
unfolding routes is_static
routes-AreStatic true = (refl, (refl, (refl, tt)))
routes-AreStatic false = (refl, (refl, tt))

-- a request that has the path in its default encoding
abbrev pub plain_url : String → Url
plain_url path = record { path = path; raw_path = "" }

handler_found :
    (mux : Mux) (has_metrics : Bool) (method path : String)
    → IsMux mux
    → handler mux has_metrics method (plain_url path) ≡ (
        if mux.knows method
        then taken method (lookup (route_path (plain_url path)) (routes has_metrics))
        else none)
handler_found mux has_metrics method path sound =
    sound.finds (routes has_metrics) method (plain_url path) (routes-HasDistinctKeys has_metrics)
      (routes-AreStatic has_metrics)

-- no route has the path "/" or ""
empty_lookup :
    (has_metrics : Bool) → lookup "/" (routes has_metrics) ≡ lookup "" (routes has_metrics)
unfolding routes lookup
empty_lookup true = refl
empty_lookup false = refl

lookup-route_path :
    (has_metrics : Bool) (path : String)
    → lookup (route_path (plain_url path)) (routes has_metrics) ≡ lookup path (routes has_metrics)
lookup-route_path has_metrics path = elim (Bool-cases (path == "")) [
  | inl empty ↦
      let at : path ≡ "" = ground (arith, eq_iff path "") in
      subst
        (λ p.
          lookup (route_path (plain_url p)) (routes has_metrics) ≡ lookup p (routes has_metrics))
        (sym at) (empty_lookup has_metrics)
  | inr other ↦ rw other refl
]

-- the routes of metrics are there only with metrics
abbrev pub is_served : Bool → Endpoint → Bool
is_served has_metrics live_endpoint = true
is_served has_metrics ready_endpoint = true
is_served has_metrics metrics_endpoint = has_metrics

abbrev endpoint_of : String → Option Endpoint
endpoint_of label =
    if label == "health.live"
    then some live_endpoint
    else if label == "health.ready"
    then some ready_endpoint
    else if label == "metrics"
    then some metrics_endpoint
    else none

endpoint_of-label_of : (e : Endpoint) → endpoint_of (label_of e) ≡ some e
endpoint_of-label_of live_endpoint = refl
endpoint_of-label_of ready_endpoint = refl
endpoint_of-label_of metrics_endpoint = refl

-- the endpoint of a GET request with this path, and the label of the request
abbrev IsLabelled : Bool → String → Endpoint → Type 0
IsLabelled has_metrics path e =
    (taken "GET" (lookup path (routes has_metrics)) ≡ some e)
    ↔ (bounded_route "GET" path ≡ label_of e)

named : (label : String) (e : Endpoint) → label ≡ label_of e → endpoint_of label ≡ some e
named label e h = ap endpoint_of h ∙ endpoint_of-label_of e

labelled :
    (has_metrics : Bool) (path : String) (e f : Endpoint)
    → taken "GET" (lookup path (routes has_metrics)) ≡ some f
    → bounded_route "GET" path ≡ label_of f
    → IsLabelled has_metrics path e
labelled has_metrics path e f found labels = (
  λ h. let same : e ≡ f = cc in labels ∙ ap label_of (sym same),
  λ h. found ∙ sym (endpoint_of-label_of f) ∙ sym (ap endpoint_of labels) ∙ named _ e h,
)

unlabelled :
    (has_metrics : Bool) (path : String) (e : Endpoint)
    → taken "GET" (lookup path (routes has_metrics)) ≡ none
    → ¬ (bounded_route "GET" path ≡ label_of e)
    → IsLabelled has_metrics path e
unlabelled has_metrics path e missing other = (λ h. cc, λ h. absurd (other h))

-- no route has the path
record IsOther (path : String) : Type 0 where
  not_live : ("/health/live" == path) ≡ false
  not_ready : ("/health/ready" == path) ≡ false
  not_metrics : ("/metrics" == path) ≡ false
  live_not : (path == "/health/live") ≡ false
  ready_not : (path == "/health/ready") ≡ false
  metrics_not : (path == "/metrics") ≡ false

path_cases :
    (path : String)
    → (path ≡ "/health/live") ⊎ (path ≡ "/health/ready") ⊎ (path ≡ "/metrics") ⊎ IsOther path
path_cases path = ground (
  arith,
  eq_iff path "/health/live",
  eq_iff path "/health/ready",
  eq_iff path "/metrics",
  eq_iff "/health/live" path,
  eq_iff "/health/ready" path,
  eq_iff "/metrics" path,
)

other-IsLabelled :
    (has_metrics : Bool) (path : String) (e : Endpoint)
    → IsOther path
    → IsLabelled has_metrics path e
unfolding bounded_route routes lookup
other-IsLabelled true path e o =
    unlabelled true path e (rw (o.not_live, o.not_ready, o.not_metrics) refl) (λ h.
      let bad : endpoint_of "unknown" ≡ some e =
        named "unknown" e (rw (o.live_not, o.ready_not, o.metrics_not) at h) in
      cc)
other-IsLabelled false path e o = unlabelled false path e (rw (o.not_live, o.not_ready) refl) (λ h.
    let bad : endpoint_of "unknown" ≡ some e =
      named "unknown" e (rw (o.live_not, o.ready_not, o.metrics_not) at h) in
    cc)

metrics-IsLabelled :
    (has_metrics : Bool) (e : Endpoint)
    → is_served has_metrics e ≡ true
    → IsLabelled has_metrics "/metrics" e
unfolding bounded_route routes lookup
metrics-IsLabelled true e h = labelled true "/metrics" e metrics_endpoint refl refl
metrics-IsLabelled false e h = unlabelled false "/metrics" e refl (λ l.
    let same : endpoint_of "metrics" ≡ some e = named "metrics" e l in
    let e_metrics : metrics_endpoint ≡ e = cc in
    let bad : false ≡ true = ap (is_served false) e_metrics ∙ h in cc)

health-IsLabelled :
    (has_metrics : Bool) (e : Endpoint)
    → IsLabelled has_metrics "/health/live" e × IsLabelled has_metrics "/health/ready" e
unfolding bounded_route routes lookup
health-IsLabelled has_metrics e = (
  labelled has_metrics "/health/live" e live_endpoint refl refl,
  labelled has_metrics "/health/ready" e ready_endpoint refl refl,
)

get-IsLabelled :
    (has_metrics : Bool) (path : String) (e : Endpoint)
    → is_served has_metrics e ≡ true
    → IsLabelled has_metrics path e
get-IsLabelled has_metrics path e h = elim (path_cases path) [
  | inl at ↦ rw at (health-IsLabelled has_metrics e).0
  | inr (inl at) ↦ rw at (health-IsLabelled has_metrics e).1
  | inr (inr (inl at)) ↦ rw at (metrics-IsLabelled has_metrics e h)
  | inr (inr (inr o)) ↦ other-IsLabelled has_metrics path e o
]

unknown_other :
    (method path : String) → (method == "GET") ≡ false → bounded_route method path ≡ "unknown"
unfolding bounded_route
unknown_other method path h = rw h refl

other_taken :
    (has_metrics : Bool) (method path : String) (e : Endpoint)
    → ("GET" == method) ≡ false
    → taken method (lookup path (routes has_metrics)) ≡ some e
    → e ≡ metrics_endpoint
unfolding routes lookup
other_taken true method path e other h = ground arith
other_taken false method path e other h = ground arith

other_handler :
    (mux : Mux) (has_metrics : Bool) (method path : String) (e : Endpoint)
    → IsMux mux
    → (method == "GET") ≡ false
    → handler mux has_metrics method (plain_url path) ≡ some e
    → e ≡ metrics_endpoint
other_handler mux has_metrics method path e sound other h =
    let found =
      rw (handler_found mux has_metrics method path sound, lookup-route_path has_metrics path) at
        h in
    elim (Bool-cases (mux.knows method)) [
      | inl known ↦
          other_taken has_metrics method path e
            (ground (arith, eq_iff method "GET", eq_iff "GET" method)) (rw known at found)
      | inr unknown ↦ let missing = rw unknown at found in cc
    ]

-- With a router that gives a request to the route of its path and method, where no pattern has a
-- parameter or a wildcard, the route label of a request whose path came in its default encoding and the
-- endpoint that answers it agree: a GET request has the label of an endpoint that is served exactly if
-- the router gives it to that endpoint, and a request with another method that is answered has the label
-- "unknown" and reaches the metrics.
pub bounded_route-handler :
    (mux : Mux) (has_metrics : Bool) (path : String) (e : Endpoint)
    → IsMux mux
    → is_served has_metrics e ≡ true
    → ((handler mux has_metrics "GET" (plain_url path) ≡ some e)
        ↔ (bounded_route "GET" path ≡ label_of e))
      × ((method : String)
          → (method == "GET") ≡ false
          → handler mux has_metrics method (plain_url path) ≡ some e
          → (bounded_route method path ≡ "unknown") × (e ≡ metrics_endpoint))
bounded_route-handler mux has_metrics path e sound served = (
  rw
      (
        handler_found mux has_metrics "GET" path sound,
        sound.knows_get,
        lookup-route_path has_metrics path,
      )
      (get-IsLabelled has_metrics path e served),
  λ method other h.
      (unknown_other method path other, other_handler mux has_metrics method path e sound other h),
)
