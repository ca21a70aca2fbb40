-- ===== src/Identify/Names/Expressions.antt =====
-- src/identify/names/expr_namer.rs: `ExpressionVarIdentifier` on expressions. An id that the
-- program writes into a node stands in the node that is returned.
pub mod Resolve
use protosnirk.Prelude.{Option, none, some, List, [], ◌∷◌, if◌then◌else◌}
use protosnirk.Prelude.Maps.{text_has_eq}
use protosnirk.Ast.Index.{ScopedId, is_default}
use protosnirk.Ast.Identifier
use protosnirk.Ast.Identifier.{Identifier, set_id, name}
use protosnirk.Ast.Expression
use protosnirk.Ast.Expression.{
  Expression, CallArguments, literal, variable_ref, binary_op, unary_op, if_expression, fn_call,
  assignment, no_arguments, argument,
}
use protosnirk.Check.Errors.{Format, unknown_assignment, unknown_reference, unknown_function}
use protosnirk.Identify.ScopeBuilder.{get}
use protosnirk.Identify.OriginManager.{add_source, pop_source, has_top_source}
use protosnirk.Identify.Names.State.{ExpressionVarIdentifier, report, on_lvalues}

-- A visit that cannot panic.
abbrev pub Visit : Type 0 → Type 0
Visit A = ExpressionVarIdentifier → A × ExpressionVarIdentifier

named_var : Option ScopedId → Identifier → Visit Identifier
named_var (some id) ident s = (set_id id ident, s)
named_var none ident s =
    (ident, report (Identifier.span ident ∷ []) (unknown_reference (name ident)) s)

-- `visit_var_ref`
unfoldable pub visit_var_ref : Identifier → Visit Identifier
unfolding named_var
visit_var_ref ident s = named_var (get (name ident) s.builder) ident s

-- `visit_fn_call`, on what the name resolves to: the arguments of an unknown function are not
-- visited.
unfoldable pub visit_call :
    Option ScopedId
    → Expression
    → Identifier
    → CallArguments
    → Visit CallArguments
    → Visit (Identifier × CallArguments)
visit_call (some id) call ident args visit s =
    let (args', s') = visit s in ((set_id id ident, args'), s')
visit_call none call ident args visit s =
    ((ident, args), report (Expression.span call ∷ []) (unknown_function (name ident)) s)

-- The start of `visit_assignment`.
unfoldable pub begin_assignment :
    Identifier → Expression → ExpressionVarIdentifier → ExpressionVarIdentifier
begin_assignment ident assign s = on_lvalues (add_source ident.id) (
    if is_default ident.id
    then report (Expression.span assign ∷ []) (unknown_assignment (name ident)) s
    else s)

-- The source is taken off if it is still on top.
unfoldable pub end_source : ScopedId → ExpressionVarIdentifier → ExpressionVarIdentifier
end_source id s = if has_top_source id s.lvalues then on_lvalues (λ m. (pop_source m).1) s else s

unfoldable mutual
  -- `visit_expression`, with the visitor of each kind of expression.
  pub visit_expression : Expression → Visit Expression
  visit_expression (literal l) s = (literal l, s)
  visit_expression (variable_ref ident) s =
      let (ident', s') = visit_var_ref ident s in (variable_ref ident', s')
  visit_expression (binary_op op l r sp) s =
      let (l', s₁) = visit_expression l s in
      let (r', s₂) = visit_expression r s₁ in (binary_op op l' r' sp, s₂)
  visit_expression (unary_op op e sp) s =
      let (e', s') = visit_expression e s in (unary_op op e' sp, s')
  visit_expression (if_expression c t e sp) s =
      let (c', s₁) = visit_expression c s in
      let (t', s₂) = visit_expression t s₁ in
      let (e', s₃) = visit_expression e s₂ in (if_expression c' t' e' sp, s₃)
  visit_expression (fn_call ident args sp) s =
      let ((ident', args'), s') =
        visit_call (get (name ident) s.builder) (fn_call ident args sp) ident args
          (visit_arguments args) s in
      (fn_call ident' args' sp, s')
  visit_expression (assignment ident e) s =
      let (e', s₁) = visit_expression e (begin_assignment ident (assignment ident e) s) in
      let (ident', s₂) = visit_var_ref ident (end_source ident.id s₁) in (assignment ident' e', s₂)

  pub visit_arguments : CallArguments → Visit CallArguments
  visit_arguments no_arguments s = (no_arguments, s)
  visit_arguments (argument param e rest) s =
      let (e', s₁) = visit_expression e s in
      let (rest', s₂) = visit_arguments rest s₁ in (argument param e' rest', s₂)
