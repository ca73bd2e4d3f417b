-- ===== src/Config/Policy/Readiness.antt =====
-- internal/config/config.go: parseDependencyReadiness. Durations are in nanoseconds.
pub mod Bounds
pub mod Defaults
use nexus_relay.Common.{
  ℕ, ◌+◌, ◌*◌, ◌/◌, ◌%◌, ◌^◌, ◌≤◌, ◌<◌, ◌≡◌, refl, List, [], ◌∷◌, String, ◌||◌, arith, ltb, leb,
  ltb→le, leb→lt, plain, Result, ok, fail_if, IsAbsent,
}
use nexus_relay.Common.{◌>>=◌, ◌>>◌}
use nexus_relay.Config.Library.{Library, ReadsDurations}
use nexus_relay.Config.Setting.{
  Values, millisecond, second, minute, hour, duration, integer, int64_value,
}

pub record DependencyReadiness : Type 0 where
  pub startup_timeout : ℕ
  pub probe_timeout : ℕ
  pub probe_interval : ℕ
  pub retry_minimum : ℕ
  pub retry_maximum : ℕ

unfoldable pub parse_dependency_readiness : Library → Values → Result DependencyReadiness
parse_dependency_readiness go v = do
  startup ← duration go v "DEPENDENCY_STARTUP_TIMEOUT" (60 * second) second (10 * minute)
  probe ← duration go v "DEPENDENCY_PROBE_TIMEOUT" (3 * second) (100 * millisecond) minute
  interval ← duration go v "DEPENDENCY_PROBE_INTERVAL" (5 * second) second minute
  minimum ← duration go v "DEPENDENCY_RETRY_MIN_DELAY" (100 * millisecond) (10 * millisecond) minute
  maximum ← duration go v "DEPENDENCY_RETRY_MAX_DELAY" (2 * second) (10 * millisecond) minute
  fail_if (leb startup probe)
      (plain "DEPENDENCY_PROBE_TIMEOUT must be less than DEPENDENCY_STARTUP_TIMEOUT")
  fail_if (ltb maximum minimum)
      (plain "DEPENDENCY_RETRY_MIN_DELAY must not exceed DEPENDENCY_RETRY_MAX_DELAY")
  ok (record {
    startup_timeout = startup;
    probe_timeout = probe;
    probe_interval = interval;
    retry_minimum = minimum;
    retry_maximum = maximum;
  })
