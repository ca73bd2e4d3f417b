-- ===== src/Config/Policy/Readiness/Bounds.antt =====
-- What parseDependencyReadiness of internal/config/config.go accepts.
use nexus_relay.Common.{◌*◌, ◌≤◌, ◌<◌, ◌≡◌, arith, ltb→le, leb→lt, ok}
use nexus_relay.Common.Ensures.{Ensures, holds, Ensures-ok, ◌≫◌, fail_if-Ensures}
use nexus_relay.Config.Library.{Library}
use nexus_relay.Config.Setting.{Values, millisecond, second, minute}
use nexus_relay.Config.Setting.Laws.{IsBetween, duration-IsBetween}
use nexus_relay.Config.Policy.Readiness.{DependencyReadiness, parse_dependency_readiness}

pub record IsReadinessPolicy (p : DependencyReadiness) : Type 0 where
  pub startup_timeout : IsBetween second (10 * minute) p.startup_timeout
  pub probe_timeout : IsBetween (100 * millisecond) minute p.probe_timeout
  pub probe_interval : IsBetween second minute p.probe_interval
  pub retry_minimum : IsBetween (10 * millisecond) minute p.retry_minimum
  pub retry_maximum : IsBetween (10 * millisecond) minute p.retry_maximum
  pub probe_fits : p.probe_timeout < p.startup_timeout
  pub retry_ordered : p.retry_minimum ≤ p.retry_maximum

pub readiness-Ensures :
    (go : Library) (v : Values) → Ensures IsReadinessPolicy (parse_dependency_readiness go v)
unfolding parse_dependency_readiness
readiness-Ensures go v = duration-IsBetween go v _ _ _ _ ≫ λ startup h0.
    duration-IsBetween go v _ _ _ _ ≫ λ probe h1. duration-IsBetween go v _ _ _ _ ≫ λ interval h2.
    duration-IsBetween go v _ _ _ _ ≫ λ minimum h3. duration-IsBetween go v _ _ _ _ ≫ λ maximum h4.
    fail_if-Ensures _ _ ≫ λ _ g0. fail_if-Ensures _ _ ≫ λ _ g1.
    holds (omega (arith, leb→lt startup probe g0, ltb→le maximum minimum g1))

-- An accepted readiness policy lies within its bounds, one probe takes less than the startup may, and
-- the retry delays are ordered.
pub parse_dependency_readiness-IsReadinessPolicy :
    (go : Library) (v : Values) {p : DependencyReadiness}
    → parse_dependency_readiness go v ≡ ok p
    → IsReadinessPolicy p
parse_dependency_readiness-IsReadinessPolicy go v h = Ensures-ok (rw h at (readiness-Ensures go v))
