-- ===== src/HttpServer/Router.antt =====
-- health.go of internal/httpserver, Handler: the routes of the operational server. The router that is
-- given them is chi's, a parameter.
pub mod Labels
use nexus_relay.Common.{
  ◌≡◌, String, Bool, true, false, Option, none, some, [], ◌∷◌, Map, lookup, HasDistinctKeys,
  if◌then◌else◌, ◌==◌, ◌&&◌, ◌||◌, not, nat_eq,
}
use nexus_relay.Common.Text.{any_code, has_prefix}

pub data Endpoint : Type 0 where
  live_endpoint ready_endpoint metrics_endpoint : Endpoint

-- router.Get has a method, router.Handle has none: it takes every method that chi knows
pub record Registered : Type 0 where
  pub method : Option String
  pub endpoint : Endpoint

-- by their paths; the handler of metrics may be nil
unfoldable pub routes : Bool → Map Registered
routes has_metrics =
    ("/health/live", record { method = some "GET"; endpoint = live_endpoint })
    ∷ ("/health/ready", record { method = some "GET"; endpoint = ready_endpoint })
    ∷ (if has_metrics
        then ("/metrics", record { method = none; endpoint = metrics_endpoint }) ∷ []
        else [])

-- what net/http parses of a request's URL: its path, and the path as it was sent where that is not the
-- default encoding of the path, "" otherwise
pub record Url : Type 0 where
  pub path : String
  pub raw_path : String

-- a router: the methods that it knows, and whose request with a method and a URL it is
pub record Mux : Type 0 where
  pub knows : String → Bool
  pub find : Map Registered → String → Url → Option Endpoint

abbrev pub takes : String → Option String → Bool
takes method none = true
takes method (some own) = own == method

-- a route of the path that takes the method
abbrev pub taken : String → Option Registered → Option Endpoint
taken method none = none
taken method (some route) = if takes method route.method then some route.endpoint else none

-- a pattern without a parameter or a wildcard
unfoldable pub is_static : String → Bool
is_static pattern =
    has_prefix pattern "/" && not (any_code (λ c. nat_eq c b'{' || nat_eq c b'*') pattern)

abbrev pub AreStatic : Map Registered → Type 0
AreStatic [] = Unit
AreStatic ((pattern, route) ∷ rs) = (is_static pattern ≡ true) × AreStatic rs

-- the path that the router reads
abbrev pub route_path : Url → String
route_path url =
    if not (url.raw_path == "") then url.raw_path else if url.path == "" then "/" else url.path

-- What the code relies on: of routes with different patterns, none of which has a parameter or a
-- wildcard, a request is given to the one of its path, if that takes its method and chi knows the
-- method.
pub record IsMux (mux : Mux) : Type 0 where
  pub knows_get : mux.knows "GET" ≡ true
  pub finds :
      (rs : Map Registered) (method : String) (url : Url)
      → HasDistinctKeys rs
      → AreStatic rs
      → mux.find rs method url
        ≡ (if mux.knows method then taken method (lookup (route_path url) rs) else none)

-- Handler: who answers a request; nobody does if it is not found or not allowed
abbrev pub handler : Mux → Bool → String → Url → Option Endpoint
handler mux has_metrics method url = mux.find (routes has_metrics) method url
