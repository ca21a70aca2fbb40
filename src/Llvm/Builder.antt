-- ===== src/Llvm/Builder.antt =====
-- src/llvm/builder.rs: the methods of `Builder` that the compiler calls.
use protosnirk.Prelude.{List, Text}
use protosnirk.Prelude.States.{Action, expect, ◌>>=◌}
use protosnirk.Llvm.Sys.{Ref, IntPredicate, RealPredicate, LlvmSys, call}
use protosnirk.Llvm.Values.{c_string}

module _ {W : Type 0} ⦃l : LlvmSys W⦄ where
  abbrev pub new : Ref → Action W Ref
  new context = call (l.create_builder context)

  abbrev pub position_at_end : Ref → Ref → Action W (Unit {0})
  position_at_end builder block = call (l.position_builder_at_end builder block)

  abbrev pub insert_block : Ref → Action W Ref
  insert_block builder = call (l.get_insert_block builder)

  abbrev pub build_ret_void : Ref → Action W Ref
  build_ret_void builder = call (l.build_ret_void builder)

  abbrev pub build_ret : Ref → Ref → Action W Ref
  build_ret builder value = call (l.build_ret builder value)

  abbrev pub build_br : Ref → Ref → Action W Ref
  build_br builder dest = call (l.build_br builder dest)

  abbrev pub build_cond_br : Ref → Ref → Ref → Ref → Action W Ref
  build_cond_br builder cond then_block else_block =
      call (l.build_cond_br builder cond then_block else_block)

  unfoldable pub build_fadd : Ref → Ref → Ref → Text → Action W Ref
  build_fadd builder lhs rhs name = do
    c_name ← expect (c_string name)
    call (l.build_fadd builder lhs rhs c_name)

  unfoldable pub build_fsub : Ref → Ref → Ref → Text → Action W Ref
  build_fsub builder lhs rhs name = do
    c_name ← expect (c_string name)
    call (l.build_fsub builder lhs rhs c_name)

  unfoldable pub build_fmul : Ref → Ref → Ref → Text → Action W Ref
  build_fmul builder lhs rhs name = do
    c_name ← expect (c_string name)
    call (l.build_fmul builder lhs rhs c_name)

  unfoldable pub build_fdiv : Ref → Ref → Ref → Text → Action W Ref
  build_fdiv builder lhs rhs name = do
    c_name ← expect (c_string name)
    call (l.build_fdiv builder lhs rhs c_name)

  unfoldable pub build_frem : Ref → Ref → Ref → Text → Action W Ref
  build_frem builder lhs rhs name = do
    c_name ← expect (c_string name)
    call (l.build_frem builder lhs rhs c_name)

  unfoldable pub build_alloca : Ref → Ref → Text → Action W Ref
  build_alloca builder ty name = do
    c_name ← expect (c_string name)
    call (l.build_alloca builder ty c_name)

  unfoldable pub build_load : Ref → Ref → Text → Action W Ref
  build_load builder pointer name = do
    c_name ← expect (c_string name)
    call (l.build_load builder pointer c_name)

  abbrev pub build_store : Ref → Ref → Ref → Action W Ref
  build_store builder value pointer = call (l.build_store builder value pointer)

  unfoldable pub build_icmp : Ref → IntPredicate → Ref → Ref → Text → Action W Ref
  build_icmp builder op lhs rhs name = do
    c_name ← expect (c_string name)
    call (l.build_icmp builder op lhs rhs c_name)

  unfoldable pub build_fcmp : Ref → RealPredicate → Ref → Ref → Text → Action W Ref
  build_fcmp builder op lhs rhs name = do
    c_name ← expect (c_string name)
    call (l.build_fcmp builder op lhs rhs c_name)

  unfoldable pub build_phi : Ref → Ref → Text → Action W Ref
  build_phi builder ty name = do
    c_name ← expect (c_string name)
    call (l.build_phi builder ty c_name)

  -- The name goes to LLVM without the NUL that ends a C string.
  abbrev pub build_call : Ref → Ref → List Ref → Text → Action W Ref
  build_call builder func args name = call (l.build_call builder func args name)
