-- ===== src/ProxyConfigMap.antt =====
-- The proxy config map controller, internal/controller/proxyconfigmap/.
pub mod Config
pub mod Routes
pub mod Pools
pub mod Affected
pub mod Owners
pub mod Handler
