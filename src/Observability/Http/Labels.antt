-- ===== src/Observability/Http/Labels.antt =====
-- The labels of internal/observability/http.go take few values.
use Prim.Native.String.{◌++◌}
use nexus_relay.Common.{
  ℕ, ◌/◌, ◌≤◌, ◌≡◌, ◌⊎◌, refl, String, Bool, true, false, List, [], ◌∷◌, ltb, contains, arith,
  Bool-cases, inl, inr, if◌then◌else◌, ◌||◌, ◌&&◌, ◌==◌,
}
use nexus_relay.Config.Number.{itoa}
use nexus_relay.Observability.Http.{bounded_route, bounded_method, bounded_status, methods}

abbrev pub routes : List String
routes = "health.live" ∷ "health.ready" ∷ "metrics" ∷ "unknown" ∷ []

abbrev pub statuses : List String
statuses = "1xx" ∷ "2xx" ∷ "3xx" ∷ "4xx" ∷ "5xx" ∷ "unknown" ∷ []

route_of :
    (live ready metrics : Bool)
    → contains
        (if live
          then "health.live"
          else if ready
          then "health.ready"
          else if metrics
          then "metrics"
          else "unknown")
        routes
      ≡ true
route_of true ready metrics = refl
route_of false true metrics = refl
route_of false false true = refl
route_of false false false = refl

route_bounded : (method path : String) → contains (bounded_route method path) routes ≡ true
unfolding bounded_route
route_bounded method path =
    route_of (method == "GET" && path == "/health/live")
      (method == "GET" && path == "/health/ready") (method == "GET" && path == "/metrics")

found_later :
    (other name : String) (names : List String)
    → contains name names ≡ true
    → contains name (other ∷ names) ≡ true
found_later other name names h = ground arith

method_bounded : (method : String) → contains (bounded_method method) ("OTHER" ∷ methods) ≡ true
unfolding bounded_method
method_bounded method = elim (Bool-cases (contains method methods)) [
  | inl known ↦ rw known (found_later "OTHER" method methods known)
  | inr unknown ↦ rw unknown refl
]

one_to_five : (n : ℕ) → 1 ≤ n → n ≤ 5 → (n ≡ 1) ⊎ (n ≡ 2) ⊎ (n ≡ 3) ⊎ (n ≡ 4) ⊎ (n ≡ 5)
one_to_five n lo hi = omega arith

class_bounded : (n : ℕ) → 1 ≤ n → n ≤ 5 → contains (itoa n ++ "xx") statuses ≡ true
unfolding itoa
class_bounded n lo hi = elim (one_to_five n lo hi) [
  | inl e ↦ rw e refl
  | inr (inl e) ↦ rw e refl
  | inr (inr (inl e)) ↦ rw e refl
  | inr (inr (inr (inl e))) ↦ rw e refl
  | inr (inr (inr (inr e))) ↦ rw e refl
]

class_range : (s : ℕ) → (ltb s 100 || ltb 599 s) ≡ false → (1 ≤ s / 100) × (s / 100 ≤ 5)
class_range s h = ground arith

status_bounded : (status : ℕ) → contains (bounded_status status) statuses ≡ true
unfolding bounded_status
status_bounded status = elim (Bool-cases (ltb status 100 || ltb 599 status)) [
  | inl outside ↦ rw outside refl
  | inr inside ↦
      rw inside
        (class_bounded (status / 100) (class_range status inside).0 (class_range status inside).1)
]

-- Whatever a client sends and a handler answers, the labels of the request's metrics are among four
-- routes, eight methods and six statuses.
pub bounded_labels :
    (method path : String) (status : ℕ)
    → (contains (bounded_route method path) routes ≡ true)
      × (contains (bounded_method method) ("OTHER" ∷ methods) ≡ true)
      × (contains (bounded_status status) statuses ≡ true)
bounded_labels method path status =
    (route_bounded method path, method_bounded method, status_bounded status)
