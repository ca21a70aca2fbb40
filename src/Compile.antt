-- ===== src/Compile.antt =====
-- src/compile: the compiler from checked units to LLVM.
pub mod Tests
pub mod ModuleProvider
pub mod State
pub mod Exprs
pub mod Blocks
pub mod Stmts
pub mod Items
