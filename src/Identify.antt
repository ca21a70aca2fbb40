-- ===== src/Identify.antt =====
-- src/identify: names, scopes and types.
pub mod ScopeBuilder
pub mod OriginManager
pub mod Names
pub mod Tests
pub mod ConcreteType
pub mod TypeScope
pub mod Types
pub mod Petgraph
pub mod TypeGraph
pub mod Typographer
pub mod Passes
