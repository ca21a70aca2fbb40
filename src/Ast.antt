-- ===== src/Ast.antt =====
-- src/ast: the syntax tree and the identifiers of scopes.
pub mod Tests
pub mod Index
pub mod Operator
pub mod Identifier
pub mod Expression
pub mod Stmt
pub mod Item
