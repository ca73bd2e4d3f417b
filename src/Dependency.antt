-- ===== src/Dependency.antt =====
-- internal/dependency: the probes of the services that a process depends on, and its readiness.
pub mod Clients
pub mod Probes
pub mod Readiness
