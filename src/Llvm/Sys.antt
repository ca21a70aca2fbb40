-- ===== src/Llvm/Sys.antt =====
-- The functions of the crate llvm_sys that src/llvm calls for the compiler, as an interface. All that
-- LLVM keeps is `W`; a pointer is its address, and the null pointer is 0. The code of LLVM is not
-- here.
use protosnirk.Prelude.{ℕ, Bool, List, Text, ◌⊎◌}
use protosnirk.Prelude.States.{Action, total}
use protosnirk.Ast.Expression.{Decimal}

abbrev pub Ref : Type 0
Ref = ℕ

-- Of the members of `LLVMIntPredicate` and `LLVMRealPredicate` those that the compiler uses.
pub data IntPredicate : Type 0 where
  int_eq : IntPredicate

pub data RealPredicate : Type 0 where
  real_oeq real_one real_olt real_ole real_ogt real_oge : RealPredicate

-- `LLVMTypeKind`; the kinds that the compiler does not ask for go by a number.
pub data TypeKind : Type 0 where
  void_kind double_kind integer_kind function_kind : TypeKind
  other_kind : ℕ → TypeKind

-- `LLVMCodeGenOptLevel`, `LLVMRelocMode` and `LLVMCodeModel`, likewise.
pub data CodeGenOptLevel : Type 0 where
  level_default : CodeGenOptLevel

pub data RelocMode : Type 0 where
  reloc_default : RelocMode

pub data CodeModel : Type 0 where
  model_default : CodeModel

-- A call of a C function.
abbrev pub Call : Type 0 → Type 0 → Type 0
Call W A = W → A × W

pub record LlvmSys (W : Type 0) : Type 0 where
  -- Contexts and modules.
  pub create_builder : Ref → Call W Ref
  pub create_module : Text → Ref → Call W Ref
  pub append_basic_block : Ref → Ref → Text → Call W Ref
  pub add_function : Ref → Text → Ref → Call W Ref
  pub set_module_data_layout : Ref → Ref → Call W (Unit {0})
  pub set_target : Ref → Text → Call W (Unit {0})
  -- Whether the module is broken.
  pub verify_module : Ref → Call W Bool
  pub dump_module : Ref → Call W (Unit {0})
  -- Types.
  pub int1_type : Ref → Call W Ref
  pub double_type : Ref → Call W Ref
  pub void_type : Ref → Call W Ref
  pub function_type : Ref → List Ref → Bool → Call W Ref
  pub get_type_kind : Ref → Call W TypeKind
  pub get_return_type : Ref → Call W Ref
  -- Constants and values.
  pub const_int : Ref → ℕ → Bool → Call W Ref
  pub const_real : Ref → Decimal → Call W Ref
  pub type_of : Ref → Call W Ref
  pub get_params : Ref → Call W (List Ref)
  pub set_value_name : Ref → Text → Call W (Unit {0})
  -- Whether the function is broken.
  pub verify_function : Ref → Call W Bool
  pub add_incoming : Ref → List Ref → List Ref → Call W (Unit {0})
  -- Builders.
  pub position_builder_at_end : Ref → Ref → Call W (Unit {0})
  pub get_insert_block : Ref → Call W Ref
  pub get_basic_block_parent : Ref → Call W Ref
  pub build_ret_void : Ref → Call W Ref
  pub build_ret : Ref → Ref → Call W Ref
  pub build_br : Ref → Ref → Call W Ref
  pub build_cond_br : Ref → Ref → Ref → Ref → Call W Ref
  pub build_fadd : Ref → Ref → Ref → Text → Call W Ref
  pub build_fsub : Ref → Ref → Ref → Text → Call W Ref
  pub build_fmul : Ref → Ref → Ref → Text → Call W Ref
  pub build_fdiv : Ref → Ref → Ref → Text → Call W Ref
  pub build_frem : Ref → Ref → Ref → Text → Call W Ref
  pub build_alloca : Ref → Ref → Text → Call W Ref
  pub build_load : Ref → Ref → Text → Call W Ref
  pub build_store : Ref → Ref → Ref → Call W Ref
  pub build_icmp : Ref → IntPredicate → Ref → Ref → Text → Call W Ref
  pub build_fcmp : Ref → RealPredicate → Ref → Ref → Text → Call W Ref
  pub build_phi : Ref → Ref → Text → Call W Ref
  -- The name is what stands at the address that is given.
  pub build_call : Ref → Ref → List Ref → Text → Call W Ref
  -- Pass managers: the answers of these two are the C numbers above 0.
  pub create_function_pass_manager : Ref → Call W Ref
  pub initialize_function_pass_manager : Ref → Call W Bool
  pub run_function_pass_manager : Ref → Ref → Call W Bool
  pub add_basic_alias_analysis_pass : Ref → Call W (Unit {0})
  pub add_instruction_combining_pass : Ref → Call W (Unit {0})
  pub add_reassociate_pass : Ref → Call W (Unit {0})
  pub add_gvn_pass : Ref → Call W (Unit {0})
  pub add_cfg_simplification_pass : Ref → Call W (Unit {0})
  -- Targets: the first answer is whether the target is missing.
  pub initialize_native_target : Call W Bool
  pub get_default_target_triple : Call W Text
  pub get_host_cpu_name : Call W Text
  pub get_host_cpu_features : Call W Text
  pub get_first_target : Call W Ref
  -- The target of a triple, or a message.
  pub get_target_from_triple : Text → Ref → Call W (Text ⊎ Ref)
  pub create_target_machine :
      Ref → Text → Text → Text → CodeGenOptLevel → RelocMode → CodeModel → Call W Ref
  pub create_target_data_layout : Ref → Call W Ref

-- A call in the chain of actions.
abbrev pub call : {W A : Type 0} → Call W A → Action W A
call f = total f
