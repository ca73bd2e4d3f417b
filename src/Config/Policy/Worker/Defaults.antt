-- ===== src/Config/Policy/Worker/Defaults.antt =====
-- The defaults of parseWorkerPolicy in internal/config/config.go.
use nexus_relay.Common.{◌*◌, ◌≡◌, refl, List, [], ◌∷◌, String, arith, ok, IsAbsent}
use nexus_relay.Common.Succeeds.{Succeeds, succeeds, Succeeds-ok, ◌≫◌, fail_if-Succeeds}
use nexus_relay.Config.Library.{Library, ReadsDurations}
use nexus_relay.Config.Setting.{Values, second, minute}
use nexus_relay.Config.Setting.Laws.{absent_integer, absent_duration}
use nexus_relay.Config.Policy.Worker.{WorkerPolicy, parse_worker_policy}

abbrev pub worker_settings : List String
worker_settings =
    "REQUEST_RETENTION_DAYS" ∷ "AUDIT_RETENTION_DAYS" ∷ "HEALTH_OBSERVATION_RETENTION_DAYS"
    ∷ "PROCESSED_OUTBOX_RETENTION_DAYS" ∷ "ANALYTICS_TARGET_LAG"
    ∷ "STALE_REQUEST_RECONCILIATION_INTERVAL" ∷ "WORKER_CONCURRENCY" ∷ "OUTBOX_LEASE_DURATION"
    ∷ "OUTBOX_RETRY_BASE_DELAY" ∷ "OUTBOX_RETRY_MAX_DELAY" ∷ "HEALTH_PROBE_INTERVAL"
    ∷ "HEALTH_FAST_WINDOW" ∷ "HEALTH_STABILIZING_WINDOW" ∷ "HEALTH_MIN_SAMPLES"
    ∷ "HEALTH_POLICY_VERSION" ∷ "HEALTH_UNAVAILABLE_ENTRY_THRESHOLD_BPS"
    ∷ "HEALTH_UNAVAILABLE_EXIT_THRESHOLD_BPS" ∷ "HEALTH_CONSECUTIVE_FAILURES"
    ∷ "HEALTH_CONSECUTIVE_SUCCESSES" ∷ "RETENTION_BATCH_SIZE" ∷ "UPSTREAM_TOTAL_TIMEOUT" ∷ []

abbrev pub default_worker : WorkerPolicy
default_worker = record {
  request_retention_days = 90;
  audit_retention_days = 365;
  health_observation_retention_days = 14;
  processed_outbox_retention_days = 7;
  analytics_target_lag = 5 * minute;
  stale_request_reconciliation_interval = minute;
  concurrency = 4;
  outbox_lease_duration = 30 * second;
  outbox_retry_base_delay = second;
  outbox_retry_max_delay = 5 * minute;
  health_probe_interval = minute;
  health_fast_window = 5 * minute;
  health_stabilizing_window = 30 * minute;
  health_min_samples = 20;
  health_policy_version = 1;
  health_unavailable_entry_threshold_bps = 5000;
  health_unavailable_exit_threshold_bps = 9000;
  health_consecutive_failures = 3;
  health_consecutive_successes = 3;
  retention_batch_size = 1000;
  maximum_request_duration = 10 * minute;
}

worker_default-Succeeds :
    {go : Library}
    → ReadsDurations go
    → (v : Values) → IsAbsent v worker_settings
    → Succeeds (λ p. p ≡ default_worker) (parse_worker_policy go v)
unfolding parse_worker_policy
worker_default-Succeeds r v a =
    absent_integer a "REQUEST_RETENTION_DAYS" refl (omega arith) ≫ λ request_days e0.
    absent_integer a "AUDIT_RETENTION_DAYS" refl (omega arith) ≫ λ audit_days e1.
    absent_integer a "HEALTH_OBSERVATION_RETENTION_DAYS" refl (omega arith) ≫ λ health_days e2.
    absent_integer a "PROCESSED_OUTBOX_RETENTION_DAYS" refl (omega arith) ≫ λ outbox_days e3.
    absent_duration a r "ANALYTICS_TARGET_LAG" refl (omega arith) ≫ λ lag e4.
    absent_duration a r "STALE_REQUEST_RECONCILIATION_INTERVAL" refl (omega arith) ≫ λ reconcile e5.
    absent_integer a "WORKER_CONCURRENCY" refl (omega arith) ≫ λ concurrency e6.
    absent_duration a r "OUTBOX_LEASE_DURATION" refl (omega arith) ≫ λ lease e7.
    absent_duration a r "OUTBOX_RETRY_BASE_DELAY" refl (omega arith) ≫ λ base e8.
    absent_duration a r "OUTBOX_RETRY_MAX_DELAY" refl (omega arith) ≫ λ max e9.
    fail_if-Succeeds _ _ (ground arith) ≫ λ _ _.
    absent_duration a r "HEALTH_PROBE_INTERVAL" refl (omega arith) ≫ λ probe e10.
    absent_duration a r "HEALTH_FAST_WINDOW" refl (omega arith) ≫ λ fast e11.
    absent_duration a r "HEALTH_STABILIZING_WINDOW" refl (omega arith) ≫ λ stable e12.
    fail_if-Succeeds _ _ (ground arith) ≫ λ _ _.
    absent_integer a "HEALTH_MIN_SAMPLES" refl (omega arith) ≫ λ samples e13.
    absent_integer a "HEALTH_POLICY_VERSION" refl (omega arith) ≫ λ version e14.
    absent_integer a "HEALTH_UNAVAILABLE_ENTRY_THRESHOLD_BPS" refl (omega arith) ≫ λ entry e15.
    absent_integer a "HEALTH_UNAVAILABLE_EXIT_THRESHOLD_BPS" refl (omega arith) ≫ λ exit e16.
    fail_if-Succeeds _ _ (ground arith) ≫ λ _ _.
    absent_integer a "HEALTH_CONSECUTIVE_FAILURES" refl (omega arith) ≫ λ failures e17.
    absent_integer a "HEALTH_CONSECUTIVE_SUCCESSES" refl (omega arith) ≫ λ successes e18.
    absent_integer a "RETENTION_BATCH_SIZE" refl (omega arith) ≫ λ batch e19.
    absent_duration a r "UPSTREAM_TOTAL_TIMEOUT" refl (omega arith) ≫ λ duration e20.
    succeeds (ground arith)

-- Where none of the worker settings is given, the defaults are accepted, if durations are read
-- back as they are printed.
pub parse_worker_policy_default :
    {go : Library}
    → ReadsDurations go
    → (v : Values) → IsAbsent v worker_settings
    → parse_worker_policy go v ≡ ok default_worker
parse_worker_policy_default r v a =
    let (p, e, same) = Succeeds-ok (worker_default-Succeeds r v a) in rw e (rw same)
