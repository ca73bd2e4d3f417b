-- ===== src/Observability/Laws.antt =====
-- The gauges of internal/observability/observability.go.
use nexus_relay.Common.{
  ap, ◌∙◌, ℕ, ◌≡◌, refl, String, Bool, Option, none, some, List, [], ◌∷◌, lookup, lookup-insert,
  if◌then◌else◌, ◌==◌,
}
use nexus_relay.Observability.{bounded_dependency, Metrics, observe_dependency}

-- the observations of a process, the latest first: a dependency's name and whether its probe failed
abbrev pub observe_all : List (String × Bool) → Option Metrics → Option Metrics
observe_all [] m = m
observe_all ((name, failed) ∷ later) m = observe_dependency name failed (observe_all later m)

-- What the latest probe of a dependency returned, as a gauge.
abbrev pub latest : String → List (String × Bool) → Option ℕ
latest name [] = none
latest name ((other, failed) ∷ later) =
    if bounded_dependency other == name then some (if failed then 0 else 1) else latest name later

abbrev pub gauge : String → Option Metrics → Option ℕ
gauge name none = none
gauge name (some m) = lookup name m.dependency_ready

abbrev pub empty_metrics : Metrics
empty_metrics = record { dependency_ready = []; service_ready = 0; observations = [] }

gauge_observed :
    (k name : String) (failed : Bool) (m : Metrics)
    → gauge k (observe_dependency name failed (some m)) ≡ (
        if bounded_dependency name == k
        then some (if failed then 0 else 1)
        else lookup k m.dependency_ready)
unfolding observe_dependency
gauge_observed k name failed m = lookup-insert (bounded_dependency name) k _ m.dependency_ready

observe_all-some :
    (observations : List (String × Bool)) (m : Metrics)
    → (m' : Metrics) × (observe_all observations (some m) ≡ some m')
unfolding observe_dependency
observe_all-some [] m = (m, refl)
observe_all-some ((name, failed) ∷ later) m =
    let (before, e) = observe_all-some later m in rw e (_, refl)

-- The gauge of a dependency says what its latest probe returned; names other than those of the two
-- dependencies share one gauge.
pub observe_all-latest :
    (name : String) (observations : List (String × Bool))
    → gauge name (observe_all observations (some empty_metrics)) ≡ latest name observations
unfolding lookup
observe_all-latest name [] = refl
observe_all-latest name ((other, failed) ∷ later) =
    let (before, e) = observe_all-some later empty_metrics in
    rw e (
      gauge_observed name other failed before
      ∙ ap (λ x. if bounded_dependency other == name then some (if failed then 0 else 1) else x)
          (rw e at (observe_all-latest name later)))
