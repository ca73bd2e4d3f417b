-- ===== src/Apps.antt =====
-- apps: the programs. The three services share their text but for their names and their settings.
pub mod Service
pub mod HealthProbe
pub mod Bootstrap
