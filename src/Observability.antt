-- ===== src/Observability.antt =====
-- internal/observability/observability.go: the gauges that the process keeps of its dependencies.
pub mod Http
pub mod Middleware
pub mod Setup
pub mod Logging
pub mod Laws
use nexus_relay.Common.{
  ℕ, suc, String, Bool, true, false, not, ◌||◌, Option, none, some, List, [], ◌∷◌, if◌then◌else◌,
  Map, lookup, insert, ◌==◌,
}

unfoldable pub bounded_dependency : String → String
bounded_dependency name = if name == "postgresql" || name == "redis" then name else "unknown"

-- The values behind the metrics: dependency_ready by dependency, service_ready, and the number of
-- observations of dependency_probe_duration_seconds by dependency and outcome.
pub record Metrics : Type 0 where
  pub dependency_ready : Map ℕ
  pub service_ready : ℕ
  pub observations : List (String × String)

-- a runtime without a registry has no metrics
unfoldable pub set_ready : Bool → Option Metrics → Option Metrics
set_ready ready none = none
set_ready ready (some m) = some (record m { service_ready = if ready then 1 else 0 })

-- ObserveDependency, by whether the probe returned an error
unfoldable pub observe_dependency : String → Bool → Option Metrics → Option Metrics
unfolding bounded_dependency insert
observe_dependency name failed none = none
observe_dependency name failed (some m) =
    let dependency = bounded_dependency name in
    some (record m {
      observations = (dependency, if failed then "failure" else "success") ∷ m.observations;
      dependency_ready = insert dependency (if failed then 0 else 1) m.dependency_ready;
    })
