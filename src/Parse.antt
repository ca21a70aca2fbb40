-- ===== src/Parse.antt =====
-- src/parse: the Pratt parser.
pub mod Errors
pub mod Precedence
pub mod State
pub mod Operators
pub mod Expressions
pub mod Statements
pub mod Items
pub mod Tests
