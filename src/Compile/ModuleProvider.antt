-- ===== src/Compile/ModuleProvider.antt =====
-- src/compile/module_provider.rs: `SimpleModuleProvider`.
use protosnirk.Prelude.{Bool, Text, ◌⊎◌, inl, inr, if◌then◌else◌}
use protosnirk.Prelude.States.{Action, pure, panic, ◌>>=◌, ◌>>◌}
use protosnirk.Llvm.Sys.{Ref, LlvmSys, call, level_default, reloc_default, model_default}
use protosnirk.Llvm.Values.{set_data_layout, set_target_triple, new_pass_manager, initialize}
use protosnirk.Llvm.Target.{initialize_native_target, native, native_target_triple}

-- Its fields are also what the methods `module` and `pass_manager` give.
pub record SimpleModuleProvider : Type 0 where
  pub llvm_module : Ref
  pub fn_pass_manager : Ref

module _ {W : Type 0} ⦃l : LlvmSys W⦄ where
  use_layout : Ref → Text ⊎ Ref → Action W (Unit {0})
  use_layout mo (inl message) = panic
  use_layout mo (inr layout) = do
    set_data_layout mo layout
    triple ← native_target_triple
    set_target_triple mo triple

  add_passes : Ref → Action W (Unit {0})
  add_passes manager = do
    call (l.add_basic_alias_analysis_pass manager)
    call (l.add_instruction_combining_pass manager)
    call (l.add_reassociate_pass manager)
    call (l.add_gvn_pass manager)
    call (l.add_cfg_simplification_pass manager)
    initialized ← initialize manager
    if initialized then pure tt else panic

  -- `SimpleModuleProvider::new`
  unfoldable pub new_provider : Ref → Bool → Action W SimpleModuleProvider
  unfolding use_layout add_passes
  new_provider mo optimizations = do
    initialize_native_target
    layout ← native level_default reloc_default model_default
    use_layout mo layout
    manager ← new_pass_manager mo
    if optimizations then add_passes manager else pure tt
    pure record { llvm_module = mo; fn_pass_manager = manager }
