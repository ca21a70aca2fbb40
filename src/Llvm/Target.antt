-- ===== src/Llvm/Target.antt =====
-- src/llvm/target.rs: the machine that the program runs on.
use protosnirk.Prelude.{Bool, true, false, Text, ◌⊎◌, inl, inr, if◌then◌else◌}
use protosnirk.Prelude.States.{Action, pure, expect, ◌>>=◌}
use protosnirk.Llvm.Sys.{Ref, LlvmSys, CodeGenOptLevel, RelocMode, CodeModel, call}
use protosnirk.Llvm.Values.{c_string}

module _ {W : Type 0} ⦃l : LlvmSys W⦄ where
  -- Whether there is a native target.
  unfoldable pub initialize_native_target : Action W Bool
  initialize_native_target = do
    missing ← call l.initialize_native_target
    pure (if missing then false else true)

  abbrev pub native_target_triple : Action W Text
  native_target_triple = call l.get_default_target_triple

  abbrev pub native_cpu_name : Action W Text
  native_cpu_name = call l.get_host_cpu_name

  abbrev pub native_cpu_features : Action W Text
  native_cpu_features = call l.get_host_cpu_features

  -- `Target::from_triple`; the error is on the left.
  unfoldable pub from_triple : Text → Action W (Text ⊎ Ref)
  from_triple triple = do
    first ← call l.get_first_target
    triple_str ← expect (c_string triple)
    call (l.get_target_from_triple triple_str first)

  -- `Target::native`
  unfoldable pub native_target : Action W (Text ⊎ Ref)
  native_target = do triple ← native_target_triple; from_triple triple

  -- `TargetMachine::new`
  unfoldable pub new_machine :
      Ref → Text → Text → Text → CodeGenOptLevel → RelocMode → CodeModel → Action W Ref
  new_machine target triple cpu features opt_level reloc_mode code_model = do
    triple_str ← expect (c_string triple)
    cpu_str ← expect (c_string cpu)
    features_str ← expect (c_string features)
    call (
        l.create_target_machine target triple_str cpu_str features_str opt_level reloc_mode
          code_model)

  machine_of : CodeGenOptLevel → RelocMode → CodeModel → Text ⊎ Ref → Action W (Text ⊎ Ref)
  machine_of opt_level reloc_mode code_model (inl e) = pure (inl e)
  machine_of opt_level reloc_mode code_model (inr target) = do
    triple ← native_target_triple
    cpu ← native_cpu_name
    features ← native_cpu_features
    machine ← new_machine target triple cpu features opt_level reloc_mode code_model
    pure (inr machine)

  -- `TargetMachine::native`
  unfoldable pub native_machine : CodeGenOptLevel → RelocMode → CodeModel → Action W (Text ⊎ Ref)
  unfolding machine_of
  native_machine opt_level reloc_mode code_model = do
    target ← native_target
    machine_of opt_level reloc_mode code_model target

  layout_of : Text ⊎ Ref → Action W (Text ⊎ Ref)
  layout_of (inl e) = pure (inl e)
  layout_of (inr machine) = do
    layout ← call (l.create_target_data_layout machine)
    pure (inr layout)

  -- `TargetData::native`, with `TargetData::from_machine`.
  unfoldable pub native : CodeGenOptLevel → RelocMode → CodeModel → Action W (Text ⊎ Ref)
  unfolding layout_of
  native opt_level reloc_mode code_model = do
    machine ← native_machine opt_level reloc_mode code_model
    layout_of machine
