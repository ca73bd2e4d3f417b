-- ===== src/Config/Policy.antt =====
-- internal/config/config.go: the timing, retry and resource policies of the processes.
pub mod Readiness
pub mod Gateway
pub mod Worker
pub mod Password
