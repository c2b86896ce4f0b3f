-- ===== src/ProxyDeployment/Laws.antt =====
-- The deployment controller's laws, by what they are about.
pub mod Volumes
pub mod Wiring
pub mod Handler
pub mod CleanUp
pub mod Sources
pub mod Guarded
pub mod Panics
