-- ===== src/Identify/Names.antt =====
-- src/identify/names: the passes that give the names in the tree their ids.
pub mod State
pub mod Frame
pub mod Leaves
pub mod Expressions
pub mod Statements
pub mod Items
pub mod Tests
