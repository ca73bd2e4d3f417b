-- ===== src/Tests.antt =====
-- Runs of the definitions on concrete inputs, and the properties applied to them.
mod Example
mod Settings
mod Files
mod Secrets
mod Readiness
mod Processes
mod Deployed
mod Endpoints
mod Rings
mod Services
mod Generated
mod Running
mod Commands
mod Owner
