-- ===== src/Config/Policy/Worker/Bounds.antt =====
-- What parseWorkerPolicy of internal/config/config.go accepts.
use nexus_relay.Common.{◌*◌, ◌≤◌, ◌<◌, ◌≡◌, arith, ltb→le, leb→lt, ok}
use nexus_relay.Common.Ensures.{Ensures, holds, Ensures-ok, ◌≫◌, fail_if-Ensures}
use nexus_relay.Config.Library.{Library}
use nexus_relay.Config.Setting.{Values, millisecond, second, hour}
use nexus_relay.Config.Setting.Laws.{IsBetween, integer-IsBetween, duration-IsBetween}
use nexus_relay.Config.Policy.Worker.{WorkerPolicy, parse_worker_policy}

pub record IsWorkerPolicy (p : WorkerPolicy) : Type 0 where
  pub request_retention_days : IsBetween 1 36500 p.request_retention_days
  pub audit_retention_days : IsBetween 1 36500 p.audit_retention_days
  pub health_observation_retention_days : IsBetween 1 36500 p.health_observation_retention_days
  pub processed_outbox_retention_days : IsBetween 1 36500 p.processed_outbox_retention_days
  pub analytics_target_lag : IsBetween second (24 * hour) p.analytics_target_lag
  pub stale_request_reconciliation_interval :
      IsBetween second (24 * hour) p.stale_request_reconciliation_interval
  pub concurrency : IsBetween 1 1024 p.concurrency
  pub outbox_lease_duration : IsBetween second hour p.outbox_lease_duration
  pub outbox_retry_base_delay : IsBetween millisecond hour p.outbox_retry_base_delay
  pub outbox_retry_max_delay : IsBetween millisecond (24 * hour) p.outbox_retry_max_delay
  pub health_probe_interval : IsBetween second (24 * hour) p.health_probe_interval
  pub health_fast_window : IsBetween second (24 * hour) p.health_fast_window
  pub health_stabilizing_window : IsBetween second (7 * 24 * hour) p.health_stabilizing_window
  pub health_min_samples : IsBetween 1 1000000 p.health_min_samples
  pub health_policy_version : IsBetween 1 2147483647 p.health_policy_version
  pub health_unavailable_entry_threshold_bps :
      IsBetween 0 10000 p.health_unavailable_entry_threshold_bps
  pub health_unavailable_exit_threshold_bps :
      IsBetween 0 10000 p.health_unavailable_exit_threshold_bps
  pub health_consecutive_failures : IsBetween 1 1000 p.health_consecutive_failures
  pub health_consecutive_successes : IsBetween 1 1000 p.health_consecutive_successes
  pub retention_batch_size : IsBetween 1 100000 p.retention_batch_size
  pub maximum_request_duration : IsBetween millisecond (24 * hour) p.maximum_request_duration
  pub retry_ordered : p.outbox_retry_base_delay ≤ p.outbox_retry_max_delay
  pub windows_ordered : p.health_fast_window ≤ p.health_stabilizing_window
  pub thresholds_apart :
      p.health_unavailable_entry_threshold_bps < p.health_unavailable_exit_threshold_bps

pub worker-Ensures : (go : Library) (v : Values) → Ensures IsWorkerPolicy (parse_worker_policy go v)
unfolding parse_worker_policy
worker-Ensures go v = integer-IsBetween v _ _ _ _ ≫ λ request_days h0.
    integer-IsBetween v _ _ _ _ ≫ λ audit_days h1. integer-IsBetween v _ _ _ _ ≫ λ health_days h2.
    integer-IsBetween v _ _ _ _ ≫ λ outbox_days h3. duration-IsBetween go v _ _ _ _ ≫ λ lag h4.
    duration-IsBetween go v _ _ _ _ ≫ λ reconcile h5.
    integer-IsBetween v _ _ _ _ ≫ λ concurrency h6. duration-IsBetween go v _ _ _ _ ≫ λ lease h7.
    duration-IsBetween go v _ _ _ _ ≫ λ base h8. duration-IsBetween go v _ _ _ _ ≫ λ max h9.
    fail_if-Ensures _ _ ≫ λ _ g0. duration-IsBetween go v _ _ _ _ ≫ λ probe h10.
    duration-IsBetween go v _ _ _ _ ≫ λ fast h11. duration-IsBetween go v _ _ _ _ ≫ λ stable h12.
    fail_if-Ensures _ _ ≫ λ _ g1. integer-IsBetween v _ _ _ _ ≫ λ samples h13.
    integer-IsBetween v _ _ _ _ ≫ λ version h14.
    integer-IsBetween v _ _ _ _ ≫ λ entry_threshold h15.
    integer-IsBetween v _ _ _ _ ≫ λ exit_threshold h16. fail_if-Ensures _ _ ≫ λ _ g2.
    integer-IsBetween v _ _ _ _ ≫ λ consecutive_failures h17.
    integer-IsBetween v _ _ _ _ ≫ λ consecutive_successes h18.
    integer-IsBetween v _ _ _ _ ≫ λ batch h19.
    duration-IsBetween go v _ _ _ _ ≫ λ maximum_request_duration h20. holds (
      omega (
        arith,
        ltb→le max base g0,
        ltb→le stable fast g1,
        leb→lt exit_threshold entry_threshold g2,
      ))

-- An accepted worker policy lies within its bounds, its retry delays and health windows are ordered,
-- and the threshold to enter unavailability is below the one to leave it.
pub parse_worker_policy-IsWorkerPolicy :
    (go : Library) (v : Values) {p : WorkerPolicy}
    → parse_worker_policy go v ≡ ok p
    → IsWorkerPolicy p
parse_worker_policy-IsWorkerPolicy go v h = Ensures-ok (rw h at (worker-Ensures go v))
