-- ===== src/Check.antt =====
-- src/check: errors, and the types that the graph gives.
pub mod Errors
pub mod Concretifier
