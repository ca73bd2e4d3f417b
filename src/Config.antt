-- ===== src/Config.antt =====
-- internal/config: the typed configuration of every process.
pub mod Library
pub mod Number
pub mod Setting
pub mod Inventory
pub mod Json
pub mod Policy
pub mod Preflight
pub mod EnvironmentFile
pub mod Endpoint
pub mod Secret
pub mod KeyFile
pub mod Session
pub mod Command
pub mod Disk
pub mod DevSecrets
pub mod Tls
pub mod Deployment
pub mod Processes
pub mod Service
pub mod Connection
