-- ===== src/Pipeline/CompileRunner.antt =====
-- src/pipeline/mod.rs: `CompileRunner`, from a checked unit to a module of LLVM.
use protosnirk.Prelude.{Bool, false, Option, none, some, []}
use protosnirk.Prelude.States.{Action, ◌>>=◌}
use protosnirk.Ast.Item.{SourceUnit}
use protosnirk.Llvm.Sys.{Ref, LlvmSys}
use protosnirk.Llvm.Values.{new_module}
use protosnirk.Llvm.Builder
use protosnirk.Compile.ModuleProvider.{SimpleModuleProvider, new_provider}
use protosnirk.Compile.State.{ModuleCompiler}
use protosnirk.Compile.Items.{visit_unit, new_compiler}
use protosnirk.Pipeline.{CheckedUnit}

module _ {W : Type 0} where
  -- `ModuleCompiler::decompose`, without the types.
  unfoldable pub decompose :
      Option (Unit {0} × ModuleCompiler W) → Option (SimpleModuleProvider × W)
  decompose none = none
  decompose (some (u, s)) = some (s.module_provider, s.world)

module _ {W : Type 0} ⦃l : LlvmSys W⦄ where
  compile_unit : SourceUnit → ModuleCompiler W → Action W SimpleModuleProvider
  unfolding decompose
  compile_unit u s w = decompose (visit_unit u (record s { world = w }))

  -- `CompileRunner::compile`; the context is the runner's field.
  unfoldable pub compile : Ref → CheckedUnit → Bool → Action W SimpleModuleProvider
  unfolding compile_unit
  compile context u optimizations = do
    mo ← new_module context u.name
    builder ← Builder.new context
    provider ← new_provider mo false
    compiler ← new_compiler u.type_map provider context builder [] [] optimizations
    compile_unit u.source compiler
