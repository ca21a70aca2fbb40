-- ===== src/Compile/Exprs.antt =====
-- src/compile/module_compiler.rs: `ModuleCompiler` on expressions.
pub mod Meaning
pub mod Facts
pub mod Steps
pub mod Operators
pub mod Calls
pub mod Worth
use protosnirk.Prelude.{false, List, [], ◌∷◌, ◌++◌, Text, codes, text_eq, if◌then◌else◌}
use protosnirk.Prelude.Maps.{lookup}
use protosnirk.Prelude.States.{Action, pure, panic, expect, gets, ◌>>=◌, ◌>>◌}
use protosnirk.Ast.Identifier
use protosnirk.Ast.Identifier.{Identifier}
use protosnirk.Ast.Index.{scoped_id_has_eq}
use protosnirk.Ast.Operator.{
  BinaryOperator, UnaryOperator, addition, subtraction, multiplication, division, modulus, equality,
  non_equality, less_than, greater_than, less_than_equals, greater_than_equals, negation,
}
use protosnirk.Ast.Expression.{
  Decimal, Expression, CallArguments, LiteralValue, literal, variable_ref, binary_op, unary_op,
  if_expression, fn_call, assignment, no_arguments, argument, bool, float, unit,
}
use protosnirk.Identify.ConcreteType.{
  ConcreteType, FnParams, named_type, fn_type, no_params, fn_param,
}
use protosnirk.Llvm.Sys.{
  Ref, TypeKind, LlvmSys, void_kind, double_kind, integer_kind, int_eq, real_oeq, real_one,
  real_olt, real_ole, real_ogt, real_oge,
}
use protosnirk.Llvm.Values.{
  int1, double, get_kind, get_type, const_int, const_real, set_name, get_parent, add_incoming,
  append_basic_block,
}
use protosnirk.Llvm.Builder.{
  position_at_end, insert_block, build_br, build_cond_br, build_fadd, build_fsub, build_fmul,
  build_fdiv, build_frem, build_load, build_store, build_icmp, build_fcmp, build_phi, build_call,
}
use protosnirk.Compile.State.{
  Compiles, on_context, on_builder, on_llvm, set_current, push, pop, scoped, llvm_type_of_concrete,
  llvm_type_of,
}

abbrev pub zero_literal : Decimal
zero_literal = record { digits = 0; scale = 0; exponent = 0 }

module _ {W : Type 0} ⦃l : LlvmSys W⦄ where
  unfoldable pub visit_literal : LiteralValue → Compiles W (Unit {0})
  visit_literal (bool b) = do
    ty ← on_context int1
    value ← on_llvm (const_int ty (if b then 1 else 0) false)
    literal_type ← on_context int1
    set_current literal_type
    push value
  visit_literal (float f) = do
    ty ← on_context double
    value ← on_llvm (const_real ty f)
    literal_type ← on_context double
    set_current literal_type
    push value
  visit_literal unit = panic

  unfoldable pub visit_var_ref : Identifier → Compiles W (Unit {0})
  visit_var_ref ident = do
    var_alloca ← scoped ident.id
    var_load ← on_builder λ b. build_load b var_alloca (codes "load_" ++ Identifier.name ident)
    ty ← llvm_type_of ident.id
    set_current ty
    push var_load

  -- `visit_assignment`, behind the visit of its right side.
  unfoldable pub assign : Identifier → Compiles W (Unit {0})
  assign lvalue = do
    rvalue ← pop
    var_alloca ← scoped lvalue.id
    on_builder λ b. build_store b rvalue var_alloca
    pure tt

  -- `visit_unary_op`, behind the visit of its operand.
  unfoldable pub finish_unary : UnaryOperator → Compiles W (Unit {0})
  finish_unary negation = do
    inner_value ← pop
    double_type ← on_context double
    literal_zero ← on_llvm (const_real double_type zero_literal)
    value ← on_builder λ b. build_fsub b inner_value literal_zero (codes "negate")
    set_current double_type
    push value
  finish_unary UnaryOperator.addition = do inner_value ← pop; push inner_value

  build_equality : TypeKind → Ref → Ref → Compiles W Ref
  build_equality double_kind left right =
      on_builder λ b. build_fcmp b real_oeq left right (codes "eq_double")
  build_equality integer_kind left right =
      on_builder λ b. build_icmp b int_eq left right (codes "eq_int")
  build_equality _ left right = panic

  -- The value of an operator on two values, and its type.
  unfoldable pub build_binary : BinaryOperator → Ref → Ref → Compiles W Ref
  unfolding build_equality
  build_binary addition left right = on_builder λ b. build_fadd b left right (codes "add")
  build_binary subtraction left right = on_builder λ b. build_fsub b left right (codes "sub")
  build_binary multiplication left right = on_builder λ b. build_fmul b left right (codes "mul")
  build_binary division left right = on_builder λ b. build_fdiv b left right (codes "div")
  build_binary modulus left right = on_builder λ b. build_frem b left right (codes "rem")
  build_binary equality left right = do
    eq_type ← on_llvm (get_type left)
    eq_type_kind ← on_llvm (get_kind eq_type)
    build_equality eq_type_kind left right
  build_binary non_equality left right =
      on_builder λ b. build_fcmp b real_one left right (codes "neqtmp")
  build_binary less_than left right =
      on_builder λ b. build_fcmp b real_olt left right (codes "lttmp")
  build_binary less_than_equals left right =
      on_builder λ b. build_fcmp b real_ole left right (codes "letmp")
  build_binary greater_than left right =
      on_builder λ b. build_fcmp b real_ogt left right (codes "gttmp")
  build_binary greater_than_equals left right =
      on_builder λ b. build_fcmp b real_oge left right (codes "getmp")

  abbrev pub binary_type : BinaryOperator → Ref → Action W Ref
  binary_type addition = double
  binary_type subtraction = double
  binary_type multiplication = double
  binary_type division = double
  binary_type modulus = double
  binary_type _ = int1

  -- `visit_binary_op`, behind the visits of its operands.
  unfoldable pub finish_binary : BinaryOperator → Ref → Ref → Compiles W (Unit {0})
  finish_binary op left right = do
    value ← build_binary op left right
    ty ← on_context (binary_type op)
    set_current ty
    push value

  -- The inner loop of `visit_fn_call`, over the arguments with their visits, for one parameter.
  unfoldable pub visit_named : Text → List (Text × Compiles W (Unit {0})) → Compiles W (List Ref)
  visit_named name [] = pure []
  visit_named name ((arg, visit) ∷ rest) =
      if text_eq arg name then (do visit; value ← pop; pure (value ∷ [])) else visit_named name rest

  -- The outer loop, over the parameters.
  unfoldable pub visit_params :
      FnParams → List (Text × Compiles W (Unit {0})) → Compiles W (List Ref)
  visit_params no_params args = pure []
  visit_params (fn_param name ty rest) args = do
    values ← visit_named name args
    others ← visit_params rest args
    pure (values ++ others)

  unfoldable pub emit_call : Identifier → Ref → List Ref → TypeKind → Compiles W (Unit {0})
  emit_call ident fn_ref arg_values void_kind = do
    value ← on_builder λ b. build_call b fn_ref arg_values []
    on_llvm (set_name value [])
  emit_call ident fn_ref arg_values _ = do
    value ← on_builder λ b. build_call b fn_ref arg_values (codes "call_" ++ Identifier.name ident)
    push value

  -- What follows the loops.
  unfoldable pub after_args : Identifier → ConcreteType → List Ref → Compiles W (Unit {0})
  after_args ident ret arg_values = do
    fn_ref ← scoped ident.id
    fn_return_type ← on_context (llvm_type_of_concrete ret)
    kind ← on_llvm (get_kind fn_return_type)
    emit_call ident fn_ref arg_values kind
    set_current fn_return_type

  unfoldable pub call_of :
      Identifier → ConcreteType → List (Text × Compiles W (Unit {0})) → Compiles W (Unit {0})
  call_of ident (named_type name) args = panic
  call_of ident (fn_type params ret) args = do
    arg_values ← visit_params params args
    after_args ident ret arg_values

  unfoldable pub visit_fn_call :
      Identifier → List (Text × Compiles W (Unit {0})) → Compiles W (Unit {0})
  unfolding call_of
  visit_fn_call ident args = do
    found ← gets (λ s. lookup ident.id s.types)
    concrete ← expect found
    call_of ident concrete args

  -- `self.builder.insert_block().get_parent().expect(…)`
  unfoldable pub parent_function : Compiles W Ref
  parent_function = do
    block ← on_builder insert_block
    parent ← on_llvm (get_parent block)
    expect parent

  abbrev pub append_block : Ref → Text → Compiles W Ref
  append_block func name = on_context λ c. append_basic_block c func name

  -- A branch of `visit_if_expr`: its value, and the block that it ends in.
  unfoldable pub if_branch : Ref → Ref → Compiles W (Unit {0}) → Compiles W (Ref × Ref)
  if_branch start end_block visit = do
    on_builder λ b. position_at_end b start
    visit
    value ← pop
    on_builder λ b. build_br b end_block
    branch_end ← on_builder insert_block
    pure (value, branch_end)

  -- `visit_if_expr`, behind the visit of its condition.
  unfoldable pub visit_if_branches :
      Compiles W (Unit {0}) → Compiles W (Unit {0}) → Compiles W (Unit {0})
  visit_if_branches visit_true visit_else = do
    condition_expr ← pop
    func ← parent_function
    then_block ← append_block func (codes "ife_then")
    else_block ← append_block func (codes "ife_else")
    end_block ← append_block func (codes "ife_end")
    on_builder λ b. build_cond_br b condition_expr then_block else_block
    on_true ← if_branch then_block end_block visit_true
    on_else ← if_branch else_block end_block visit_else
    on_builder λ b. position_at_end b end_block
    phi_type ← gets (λ s. s.current_type)
    phi ← on_builder λ b. build_phi b phi_type (codes "ifephi")
    on_llvm (add_incoming phi (on_true.0 ∷ []) (on_true.1 ∷ []))
    on_llvm (add_incoming phi (on_else.0 ∷ []) (on_else.1 ∷ []))
    push phi

  unfoldable mutual
    -- `visit_expression`, with the visitor of each kind of expression.
    pub visit_expression : Expression → Compiles W (Unit {0})
    visit_expression (literal lit) = visit_literal lit.value
    visit_expression (variable_ref ident) = visit_var_ref ident
    visit_expression (binary_op op lhs rhs sp) = do
      visit_expression lhs
      left_register ← pop
      visit_expression rhs
      right_register ← pop
      finish_binary op left_register right_register
    visit_expression (unary_op op e sp) = do visit_expression e; finish_unary op
    visit_expression (if_expression c t e sp) = do
      visit_expression c
      visit_if_branches (visit_expression t) (visit_expression e)
    visit_expression (fn_call ident args sp) = visit_fn_call ident (argument_visits args)
    visit_expression (assignment ident e) = do visit_expression e; assign ident

    -- The arguments of a call: their names, and the visits of their values.
    pub argument_visits : CallArguments → List (Text × Compiles W (Unit {0}))
    argument_visits no_arguments = []
    argument_visits (argument param e rest) =
        (Identifier.name param, visit_expression e) ∷ argument_visits rest
