-- ===== src/Llvm.antt =====
-- src/llvm: the wrappers of LLVM that the compiler calls, over the functions of the crate llvm_sys.
pub mod Sys
pub mod Values
pub mod Builder
pub mod Target
pub mod Execution
pub mod Recorder
