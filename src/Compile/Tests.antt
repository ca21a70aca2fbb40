-- ===== src/Compile/Tests.antt =====
-- src/compile: a function's code at work, over a recorded run.
mod Start
use protosnirk.Prelude.{
  ℕ, ◌-◌, ◌≡◌, refl, sym, ◌∙◌, ap, subst, eq_of_some, Bool, true, false, none, some, List, [], ◌∷◌,
  Text, codes, text_eq, if◌then◌else◌,
}
use protosnirk.Prelude.Maps.{lookup}
use protosnirk.Prelude.States.{◌>>◌, expect, pure, total, ◌>>=◌}
use protosnirk.Prelude.Returns.{Returns}
use protosnirk.Lex.Span.{Span, origin, between}
use protosnirk.Lex.Token
use protosnirk.Lex.Token.{Token, symbol}
use protosnirk.Ast.Index.{ScopedId, same_id, same_id_iff, scoped_id_has_eq}
use protosnirk.Ast.Identifier
use protosnirk.Ast.Identifier.{Identifier, set_id}
use protosnirk.Ast.Operator.{subtraction, negation}
use protosnirk.Ast.Expression.{
  Expression, literal, variable_ref, binary_op, unary_op, fn_call, assignment, no_arguments,
  argument, float,
}
use protosnirk.Ast.Stmt.{
  Statements, Conditionals, expression, declaration, no_stmts, stmt, no_conditionals, conditional,
  block, no_else,
}
use protosnirk.Check.Concretifier.{TypeMapping}
use protosnirk.Identify.ConcreteType.{ConcreteType, named_type, fn_type, no_params, fn_param}
use protosnirk.Llvm.Sys.{Ref, double_kind}
use protosnirk.Llvm.Values.{has_nul, get_parent, non_null}
use protosnirk.Llvm.Execution.{Datum, real, bit, kind}
use protosnirk.Llvm.Recorder.{Recorder, recorder, recorded, naturals, subtracts}
use protosnirk.Llvm.Recorder.Laws.{recorder-IsExecution}
use protosnirk.Compile.State.Known.{
  returns_some, all_primitive, all_primitive_params, llvm_type_of_concrete-returns,
}
use protosnirk.Compile.State.{ModuleCompiler, llvm_type_of_concrete, on_builder, on_llvm}
use protosnirk.Compile.Exprs.{visit_expression, parent_function}
use protosnirk.Compile.Exprs.Meaning.{
  Meaning, eval, argument_values, named_values, params_values, call_value, IsCompilable,
  AreCompilable,
}
use protosnirk.Compile.Exprs.Facts.{Fits, Fits-Goes, HasVar, HasFn, Computed}
use protosnirk.Compile.Exprs.Worth.{visit_expression-Computed, visit_negation-Computed}
use protosnirk.Compile.Blocks.{block_at, branch_on_condition, incoming_conditions}
use protosnirk.Compile.Blocks.Branches.{branched, branch_on_condition_negates}
use protosnirk.Compile.Blocks.Layout.{incoming_conditions_lem}
use protosnirk.Compile.Stmts.{walk_block, visit_stmt, prepare_if}
use protosnirk.Compile.Stmts.Bounds.{Paired, prepare_if-Paired}
use protosnirk.Compile.Stmts.Meaning.{Steps, Step, bind, declares, assigns, value, done, next}
use protosnirk.Compile.Stmts.Straight.{Ran, walk_block-Ran}
use protosnirk.Compile.Items.{append_return}
use protosnirk.Compile.Items.Returns.{Returned, append_return-stale, append_return-Computed}
use protosnirk.Compile.Tests.Start.{
  sp, ident, x_id, y_id, f_id, float_type, meaning, start, start-Fits,
}

abbrev one : Expression
one = literal (record {
  token = Token.new (codes "1") origin symbol;
  value = float (record { digits = 1; scale = 0; exponent = 0 });
})

-- `f(b: 1, a: x)`
abbrev called : Expression
called =
    fn_call (ident (codes "f") f_id)
      (argument (ident (codes "b") x_id) one
        (argument (ident (codes "a") x_id) (variable_ref (ident (codes "x") x_id)) no_arguments))
      sp

-- `f(b: 1, a: x) - 1`
abbrev difference : Expression
difference = binary_op subtraction called one sp

difference-IsCompilable : IsCompilable meaning difference
unfolding IsCompilable AreCompilable has_nul
difference-IsCompilable = ((tt, (refl, tt)), tt)

difference_value : eval meaning difference ≡ some (real 5)
unfolding eval argument_values named_values params_values call_value lookup same_id text_eq
difference_value = refl

visit_expression-Computed_example :
    Returns (λ _. Computed recorded start (real 5)) (visit_expression difference start)
visit_expression-Computed_example =
    visit_expression-Computed meaning recorder-IsExecution difference start (real 5)
      difference-IsCompilable start-Fits difference_value

-- The compiled code of `-(f(b: 1, a: x) - 1)`.
visit_negation-Computed_example :
    Returns
      (λ _. Computed recorded start (real 5))
      (visit_expression (unary_op negation difference sp) start)
visit_negation-Computed_example =
    visit_negation-Computed meaning recorder-IsExecution difference sp start 5
      difference-IsCompilable start-Fits difference_value

-- `let y = f(b: 1, a: x) - 1` and `x = y`.
abbrev two_stmts : Statements
two_stmts = stmt (declaration false (ident (codes "y") y_id) none difference sp) (
    stmt (expression (assignment (ident (codes "x") x_id) (variable_ref (ident (codes "y") y_id))))
      no_stmts)

abbrev with_y : Meaning ℕ
with_y = bind y_id (real 5) meaning

abbrev with_both : Meaning ℕ
with_both = bind x_id (real 5) with_y

y_declared : Step meaning (declaration false (ident (codes "y") y_id) none difference sp) 0 with_y
unfolding has_nul lookup same_id text_eq
y_declared = declares difference-IsCompilable difference_value refl refl refl

x_assigned :
    Step with_y
      (expression (assignment (ident (codes "x") x_id) (variable_ref (ident (codes "y") y_id))))
      0
      with_both
unfolding eval bind IsCompilable has_nul lookup same_id text_eq
x_assigned = assigns {c = real 7} refl refl refl refl

two_steps : Steps meaning two_stmts 0 with_both
two_steps = next y_declared (next x_assigned done)

-- The same, with `x` behind it.
abbrev three_stmts : Statements
three_stmts = stmt (declaration false (ident (codes "y") y_id) none difference sp) (
    stmt (expression (assignment (ident (codes "x") x_id) (variable_ref (ident (codes "y") y_id))))
      (stmt (expression (variable_ref (ident (codes "x") x_id))) no_stmts))

x_read : Step with_both (expression (variable_ref (ident (codes "x") x_id))) 1 with_both
unfolding eval bind IsCompilable has_nul same_id text_eq
x_read = value {d = real 5} refl refl

three_steps : Steps meaning three_stmts 1 with_both
three_steps = next y_declared (next x_assigned (next x_read done))

walk_block-Ran_example :
    Returns (λ _. Ran recorded with_both 1 start) (walk_block three_stmts start)
walk_block-Ran_example = walk_block-Ran three_steps recorder-IsExecution start start-Fits

append_return-Computed_example :
    Returns
      (λ _ t. (v : Ref) × (w : Recorder) × (recorded.worth w v ≡ some (real 5)) × Returned v w [] t)
      ((visit_stmt (expression difference) >> append_return false) start)
append_return-Computed_example =
    append_return-Computed meaning recorder-IsExecution difference start (real 5)
      difference-IsCompilable start-Fits difference_value

-- A state in which an earlier function has left a value.
abbrev left_over : ModuleCompiler Recorder
left_over = record start { ir_code = 9 ∷ [] }

left_over-Fits : Fits recorded meaning left_over
left_over-Fits = Fits-Goes start-Fits (record {
  keeps = record { reached = λ h. h; worths = λ v d h. h; cells = λ p c h. h };
  scope = refl;
  types = refl;
})

append_return-stale_example :
    Returns
      (λ _ t. (w : Recorder) × Returned 9 w [] t)
      ((walk_block two_stmts >> append_return false) left_over)
append_return-stale_example =
    append_return-stale 9 [] two_steps recorder-IsExecution left_over left_over-Fits refl

-- A condition that is true, and the zero of `bool`.
abbrev tested : ModuleCompiler Recorder
tested = record start {
  world = record { values = bit true ∷ bit false ∷ []; cells = [] };
  ir_code = 0 ∷ [];
}

branch_on_condition_negates_example :
    (c : Ref) × (w : Recorder) × (recorded.worth w c ≡ some (bit false))
    × (branch_on_condition 1 (4 ∷ 6 ∷ []) 0 tested ≡ some (tt, branched tested [] c 4 6 w))
unfolding block_at
branch_on_condition_negates_example =
    branch_on_condition_negates recorder-IsExecution tested 0 1 4 6 [] (4 ∷ 6 ∷ []) 0 true refl refl
      refl refl refl refl

abbrev two_conditionals : Conditionals
two_conditionals =
    conditional one (block no_stmts x_id none sp) sp
      (conditional one (block no_stmts x_id none sp) sp no_conditionals)

in_function : parent_function start ≡ some (1, start)
unfolding parent_function get_parent non_null expect pure total on_builder on_llvm ◌>>=◌
in_function = refl

prepare_if-Paired_example :
    Returns
      (λ r _. Paired Recorder two_conditionals false r)
      (prepare_if two_conditionals no_else start)
prepare_if-Paired_example = prepare_if-Paired two_conditionals no_else false start in_function

incoming_conditions_lem_example :
    (incoming_conditions (1 ∷ 2 ∷ 3 ∷ 4 ∷ []) ≡ some (1 ∷ 3 ∷ 4 ∷ []))
    × (incoming_conditions (1 ∷ 2 ∷ 3 ∷ []) ≡ some (1 ∷ 3 ∷ 3 ∷ []))
incoming_conditions_lem_example = incoming_conditions_lem ((1, 2) ∷ []) 3 4

llvm_type_of_concrete-returns_example :
    returns_some (
      llvm_type_of_concrete
        (fn_type (fn_param (codes "a") float_type no_params) (named_type (codes "int")))
        1
        start.world)
    ≡ false
unfolding all_primitive all_primitive_params text_eq
llvm_type_of_concrete-returns_example =
    llvm_type_of_concrete-returns
      (fn_type (fn_param (codes "a") float_type no_params) (named_type (codes "int"))) 1 start.world
