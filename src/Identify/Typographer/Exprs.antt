-- ===== src/Identify/Typographer/Exprs.antt =====
-- src/identify/types/expr_typographer.rs: `ExprTypographer` on expressions.
use protosnirk.Prelude.{ℕ, Option, none, some, [], ◌∷◌, Text, codes, if◌then◌else◌}
use protosnirk.Prelude.States.{pure, gets, expect, ◌>>=◌, ◌>>◌}
use protosnirk.Ast.Index.{ScopedId, is_default, scoped_id_has_eq}
use protosnirk.Ast.Identifier
use protosnirk.Ast.Identifier.{Identifier}
use protosnirk.Ast.Operator.{
  BinaryOperator, addition, subtraction, multiplication, division, modulus, equality, non_equality,
  less_than, greater_than, less_than_equals, greater_than_equals,
}
use protosnirk.Ast.Expression
use protosnirk.Ast.Expression.{
  Expression, CallArguments, Literal, LiteralValue, literal, variable_ref, binary_op, unary_op,
  if_expression, fn_call, assignment, no_arguments, argument, bool, float, unit,
}
use protosnirk.Check.Errors.{unknown_function}
use protosnirk.Identify.Petgraph.{Petgraph}
use protosnirk.Identify.TypeGraph.{
  TypeNode, InferenceSource, get_type, variable, add_expression, add_named_call_arg,
  add_call_return_type, literal_value, call_argument, if_conditional_bool, if_branches_same,
  from_assignment, numeric_operator, boolean_operator, equality_operator,
}
use protosnirk.Identify.Typographer.State.{
  Typing, graphs, infer, set_current, current, complain, primitive_type_ix,
}

-- The name of a literal's type.
abbrev pub literal_type : LiteralValue → Text
literal_type (bool b) = codes "bool"
literal_type (float d) = codes "float"
literal_type unit = codes "()"

-- What a binary operator asks of its sides, and its result.
pub data Rule : Type 0 where
  same_sides numbers_to_bool numbers : Rule

abbrev pub rule : BinaryOperator → Rule
rule addition = numbers
rule subtraction = numbers
rule multiplication = numbers
rule division = numbers
rule modulus = numbers
rule equality = same_sides
rule non_equality = same_sides
rule less_than = numbers_to_bool
rule greater_than = numbers_to_bool
rule less_than_equals = numbers_to_bool
rule greater_than_equals = numbers_to_bool

module _ {G : Type 0} ⦃p : Petgraph G TypeNode InferenceSource⦄ where
  unfoldable pub visit_literal : Literal → Typing G (Unit {0})
  visit_literal l = do
    ty ← primitive_type_ix (literal_type l.value)
    expr_ty ← graphs add_expression
    infer expr_ty ty (literal_value l)
    set_current expr_ty

  known_var : ScopedId → Typing G ℕ
  known_var id = do ix ← gets (λ s. variable id s.graph); expect ix

  unfoldable pub visit_var_ref : Identifier → Typing G (Unit {0})
  unfolding known_var
  visit_var_ref ident =
      if is_default ident.id then pure tt else (known_var ident.id >>= set_current)

  -- The `match` of `visit_binary_op`.
  unfoldable pub visit_rule : Rule → ℕ → ℕ → ℕ → Typing G (Unit {0})
  visit_rule same_sides left right result = do
    bool_type ← primitive_type_ix (codes "bool")
    infer right left equality_operator
    infer result bool_type equality_operator
  visit_rule numbers_to_bool left right result = do
    float_type ← primitive_type_ix (codes "float")
    bool_type ← primitive_type_ix (codes "bool")
    infer left float_type numeric_operator
    infer right float_type numeric_operator
    infer result bool_type boolean_operator
  visit_rule numbers left right result = do
    float_type ← primitive_type_ix (codes "float")
    infer left float_type numeric_operator
    infer right float_type numeric_operator
    infer result float_type numeric_operator

  assign_edge : ScopedId → Typing G (Unit {0})
  unfolding known_var
  assign_edge lvalue = do
    lvalue_type ← known_var lvalue
    ty ← current
    infer ty lvalue_type from_assignment
    unit_type ← primitive_type_ix (codes "()")
    set_current unit_type

  -- The end of `visit_assignment`.
  unfoldable pub finish_assignment : Identifier → Typing G (Unit {0})
  unfolding assign_edge
  finish_assignment lvalue = if is_default lvalue.id then pure tt else assign_edge lvalue.id

  call_on : Option ℕ → Expression → Identifier → (ℕ → Typing G (Unit {0})) → Typing G (Unit {0})
  call_on none call ident visit_args =
      complain (Expression.span call ∷ []) (unknown_function (Identifier.name ident))
  call_on (some fn_ix) call ident visit_args = do
    visit_args fn_ix
    ret ← graphs (add_call_return_type fn_ix)
    set_current ret

  known_call : Expression → Identifier → (ℕ → Typing G (Unit {0})) → Typing G (Unit {0})
  unfolding call_on
  known_call call ident visit_args = do
    fn_ix ← gets (λ s. get_type ident.id s.graph)
    call_on fn_ix call ident visit_args

  -- `visit_fn_call`, the visits of the arguments being passed on.
  unfoldable pub visit_call :
      Expression → Identifier → (ℕ → Typing G (Unit {0})) → Typing G (Unit {0})
  unfolding known_call
  visit_call call ident visit_args =
      if is_default ident.id then pure tt else known_call call ident visit_args

  unfoldable mutual
    -- `visit_expression`, with the visitor of each kind of expression.
    pub visit_expression : Expression → Typing G (Unit {0})
    visit_expression (literal l) = visit_literal l
    visit_expression (variable_ref ident) = visit_var_ref ident
    visit_expression (binary_op op l r sp) = do
      visit_expression l
      left ← current
      visit_expression r
      right ← current
      result ← graphs add_expression
      visit_rule (rule op) left right result
      set_current result
    visit_expression (unary_op op e sp) = do
      float_type ← primitive_type_ix (codes "float")
      visit_expression e
      ty ← current
      infer ty float_type numeric_operator
      result ← graphs add_expression
      infer result float_type numeric_operator
    visit_expression (if_expression c t e sp) = do
      if_ty ← graphs add_expression
      visit_expression c
      bool_type ← primitive_type_ix (codes "bool")
      cond_ty ← current
      infer cond_ty bool_type if_conditional_bool
      visit_expression t
      left ← current
      visit_expression e
      right ← current
      infer right left if_branches_same
      infer if_ty left if_branches_same
      infer if_ty left if_branches_same
      set_current if_ty
    visit_expression (fn_call ident args sp) =
        visit_call (fn_call ident args sp) ident (visit_arguments ident args)
    visit_expression (assignment ident e) = do visit_expression e; finish_assignment ident

    -- The loop over the arguments.
    pub visit_arguments : Identifier → CallArguments → ℕ → Typing G (Unit {0})
    visit_arguments ident no_arguments fn_ix = pure tt
    visit_arguments ident (argument param e rest) fn_ix = do
      visit_expression e
      ty ← current
      arg ← graphs (add_named_call_arg (Identifier.name param) fn_ix)
      infer arg ty (call_argument ident)
      visit_arguments ident rest fn_ix
