-- ===== src/Operator.antt =====
-- What the controllers share: internal/controller/ (names.go, meta.go, operator.go) and internal/util/ownerref.
pub mod Names
pub mod Owners
pub mod Lookup
