-- ===== src/Api.antt =====
-- The object types: the MemcachedProxy resource of internal/apis/ianlewis.org/v1alpha1/types.go, and the
-- fields of the Kubernetes objects that the controllers read or write (children of this module).
pub mod Meta
pub mod Rules
pub mod Proxy
pub mod Objects
pub mod Equality
pub mod Defaults
