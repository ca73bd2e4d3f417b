-- ===== src/Config/Policy/Worker.antt =====
-- internal/config/config.go: parseWorkerPolicy. Durations are in nanoseconds.
pub mod Bounds
pub mod Defaults
use nexus_relay.Common.{
  ℕ, ◌+◌, ◌*◌, ◌/◌, ◌%◌, ◌^◌, ◌≤◌, ◌<◌, ◌≡◌, refl, List, [], ◌∷◌, String, ◌||◌, arith, ltb, leb,
  ltb→le, leb→lt, plain, Result, ok, fail_if, IsAbsent,
}
use nexus_relay.Common.{◌>>=◌, ◌>>◌}
use nexus_relay.Config.Library.{Library, ReadsDurations}
use nexus_relay.Config.Setting.{
  Values, millisecond, second, minute, hour, duration, integer, int64_value,
}

pub record WorkerPolicy : Type 0 where
  pub request_retention_days : ℕ
  pub audit_retention_days : ℕ
  pub health_observation_retention_days : ℕ
  pub processed_outbox_retention_days : ℕ
  pub analytics_target_lag : ℕ
  pub stale_request_reconciliation_interval : ℕ
  pub concurrency : ℕ
  pub outbox_lease_duration : ℕ
  pub outbox_retry_base_delay : ℕ
  pub outbox_retry_max_delay : ℕ
  pub health_probe_interval : ℕ
  pub health_fast_window : ℕ
  pub health_stabilizing_window : ℕ
  pub health_min_samples : ℕ
  pub health_policy_version : ℕ
  pub health_unavailable_entry_threshold_bps : ℕ
  pub health_unavailable_exit_threshold_bps : ℕ
  pub health_consecutive_failures : ℕ
  pub health_consecutive_successes : ℕ
  pub retention_batch_size : ℕ
  pub maximum_request_duration : ℕ

unfoldable pub parse_worker_policy : Library → Values → Result WorkerPolicy
parse_worker_policy go v = do
  request_days ← integer v "REQUEST_RETENTION_DAYS" 90 1 36500
  audit_days ← integer v "AUDIT_RETENTION_DAYS" 365 1 36500
  health_days ← integer v "HEALTH_OBSERVATION_RETENTION_DAYS" 14 1 36500
  outbox_days ← integer v "PROCESSED_OUTBOX_RETENTION_DAYS" 7 1 36500
  lag ← duration go v "ANALYTICS_TARGET_LAG" (5 * minute) second (24 * hour)
  reconcile ← duration go v "STALE_REQUEST_RECONCILIATION_INTERVAL" minute second (24 * hour)
  concurrency ← integer v "WORKER_CONCURRENCY" 4 1 1024
  lease ← duration go v "OUTBOX_LEASE_DURATION" (30 * second) second hour
  base ← duration go v "OUTBOX_RETRY_BASE_DELAY" second millisecond hour
  max ← duration go v "OUTBOX_RETRY_MAX_DELAY" (5 * minute) millisecond (24 * hour)
  fail_if (ltb max base) (plain "OUTBOX_RETRY_BASE_DELAY must not exceed OUTBOX_RETRY_MAX_DELAY")
  probe ← duration go v "HEALTH_PROBE_INTERVAL" minute second (24 * hour)
  fast ← duration go v "HEALTH_FAST_WINDOW" (5 * minute) second (24 * hour)
  stable ← duration go v "HEALTH_STABILIZING_WINDOW" (30 * minute) second (7 * 24 * hour)
  fail_if (ltb stable fast) (plain "HEALTH_FAST_WINDOW must not exceed HEALTH_STABILIZING_WINDOW")
  samples ← integer v "HEALTH_MIN_SAMPLES" 20 1 1000000
  version ← integer v "HEALTH_POLICY_VERSION" 1 1 2147483647
  entry_threshold ← integer v "HEALTH_UNAVAILABLE_ENTRY_THRESHOLD_BPS" 5000 0 10000
  exit_threshold ← integer v "HEALTH_UNAVAILABLE_EXIT_THRESHOLD_BPS" 9000 0 10000
  fail_if (leb exit_threshold entry_threshold) (
      plain
        "HEALTH_UNAVAILABLE_ENTRY_THRESHOLD_BPS must be less than HEALTH_UNAVAILABLE_EXIT_THRESHOLD_BPS")
  consecutive_failures ← integer v "HEALTH_CONSECUTIVE_FAILURES" 3 1 1000
  consecutive_successes ← integer v "HEALTH_CONSECUTIVE_SUCCESSES" 3 1 1000
  batch ← integer v "RETENTION_BATCH_SIZE" 1000 1 100000
  maximum_request_duration ←
      duration go v "UPSTREAM_TOTAL_TIMEOUT" (10 * minute) millisecond (24 * hour)
  ok (record {
    request_retention_days = request_days;
    audit_retention_days = audit_days;
    health_observation_retention_days = health_days;
    processed_outbox_retention_days = outbox_days;
    analytics_target_lag = lag;
    stale_request_reconciliation_interval = reconcile;
    concurrency = concurrency;
    outbox_lease_duration = lease;
    outbox_retry_base_delay = base;
    outbox_retry_max_delay = max;
    health_probe_interval = probe;
    health_fast_window = fast;
    health_stabilizing_window = stable;
    health_min_samples = samples;
    health_policy_version = version;
    health_unavailable_entry_threshold_bps = entry_threshold;
    health_unavailable_exit_threshold_bps = exit_threshold;
    health_consecutive_failures = consecutive_failures;
    health_consecutive_successes = consecutive_successes;
    retention_batch_size = batch;
    maximum_request_duration = maximum_request_duration;
  })
