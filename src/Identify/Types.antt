-- ===== src/Identify/Types.antt =====
-- src/identify/types/mod.rs: the passes that identify types.
pub mod Naming
pub mod Items
pub mod Exprs
