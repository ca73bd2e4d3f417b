-- ===== src/Config/Policy/Readiness/Defaults.antt =====
-- The defaults of parseDependencyReadiness in internal/config/config.go.
use nexus_relay.Common.{◌*◌, ◌≡◌, refl, List, [], ◌∷◌, String, arith, ok, IsAbsent}
use nexus_relay.Common.Succeeds.{Succeeds, succeeds, Succeeds-ok, ◌≫◌, fail_if-Succeeds}
use nexus_relay.Config.Library.{Library, ReadsDurations}
use nexus_relay.Config.Setting.{Values, millisecond, second}
use nexus_relay.Config.Setting.Laws.{absent_duration}
use nexus_relay.Config.Policy.Readiness.{DependencyReadiness, parse_dependency_readiness}

abbrev pub readiness_settings : List String
readiness_settings =
    "DEPENDENCY_STARTUP_TIMEOUT" ∷ "DEPENDENCY_PROBE_TIMEOUT" ∷ "DEPENDENCY_PROBE_INTERVAL"
    ∷ "DEPENDENCY_RETRY_MIN_DELAY" ∷ "DEPENDENCY_RETRY_MAX_DELAY" ∷ []

abbrev pub default_readiness : DependencyReadiness
default_readiness = record {
  startup_timeout = 60 * second;
  probe_timeout = 3 * second;
  probe_interval = 5 * second;
  retry_minimum = 100 * millisecond;
  retry_maximum = 2 * second;
}

readiness_default-Succeeds :
    {go : Library}
    → ReadsDurations go
    → (v : Values) → IsAbsent v readiness_settings
    → Succeeds (λ p. p ≡ default_readiness) (parse_dependency_readiness go v)
unfolding parse_dependency_readiness
readiness_default-Succeeds r v a =
    absent_duration a r "DEPENDENCY_STARTUP_TIMEOUT" refl (omega arith) ≫ λ startup e0.
    absent_duration a r "DEPENDENCY_PROBE_TIMEOUT" refl (omega arith) ≫ λ probe e1.
    absent_duration a r "DEPENDENCY_PROBE_INTERVAL" refl (omega arith) ≫ λ interval e2.
    absent_duration a r "DEPENDENCY_RETRY_MIN_DELAY" refl (omega arith) ≫ λ minimum e3.
    absent_duration a r "DEPENDENCY_RETRY_MAX_DELAY" refl (omega arith) ≫ λ maximum e4.
    fail_if-Succeeds _ _ (ground arith) ≫ λ _ _.
    fail_if-Succeeds _ _ (ground arith) ≫ λ _ _. succeeds (ground arith)

-- Where none of the readiness settings is given, the defaults are accepted, if durations are read
-- back as they are printed.
pub parse_dependency_readiness_default :
    {go : Library}
    → ReadsDurations go
    → (v : Values) → IsAbsent v readiness_settings
    → parse_dependency_readiness go v ≡ ok default_readiness
parse_dependency_readiness_default r v a =
    let (p, e, same) = Succeeds-ok (readiness_default-Succeeds r v a) in rw e (rw same)
