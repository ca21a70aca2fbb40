-- ===== src/Parse/Expressions/Faults.antt =====
-- src/parse/parser.rs and src/parse/parsers/expression: tokens that the expression parser loses or
-- cannot take.
use protosnirk.Prelude.{ℕ, zero, suc, ◌≡◌, ◌≢◌, refl, bind-eq-ok, Outcome, ok, err, some, [], ◌∷◌}
use protosnirk.Lex.Token.{Token}
use protosnirk.Lex.Tokens.{
  TokenType, get_type, return_kw, plus_equals, minus_equals, star_equals, slash_equals,
  percent_equals,
}
use protosnirk.Ast.Expression.{Expression, assignment, new_binary, variable_ref}
use protosnirk.Parse.Errors.{
  Failure, expect_identifier, expect_value, parse_error, unknown_operator,
}
use protosnirk.Parse.Operators.{binary_operator}
use protosnirk.Parse.Precedence.{Precedence, min, for_token}
use protosnirk.Parse.State.{
  ◌>>=◌, Parser, peek, consume, look_ahead, fill, pop_back, P, lift, next_type, consume_indented,
}
use protosnirk.Parse.State.Order.{looking}
use protosnirk.Parse.Expressions.{
  current_precedence, infix_round, infix_expr, infix_of, assigns_op, infix_loop, expression,
}

binary_operator-assigns :
    (ty : TokenType)
    → infix_of ty ≡ assigns_op
    → binary_operator ty ≡ err (parse_error (unknown_operator ty))
unfolding infix_of binary_operator
binary_operator-assigns plus_equals e = refl
binary_operator-assigns minus_equals e = refl
binary_operator-assigns star_equals e = refl
binary_operator-assigns slash_equals e = refl
binary_operator-assigns percent_equals e = refl
binary_operator-assigns ty e = cc

-- A step that is an error, behind three others, leaves no result.
fourth_step_fails {ℓ κ ι} :
    {A : Type ℓ} {B : Type κ} {C : Type ι} {D : Type 0} {R : Type 0} (m : P A) (n : P B)
    (o : B → P C) (q : Outcome Failure D) (k : A → C → D → P R) (s : Parser) (r : R × Parser)
    (x : Failure)
    → q ≡ err x
    → (do a ← m; b ← n; c ← o b; d ← lift q; k a c d) s ≢ ok r
fourth_step_fails m n o q k s r x h e =
    let (a, _, e1) = bind-eq-ok (m s) _ e in
    let (b, _, e2) = bind-eq-ok (n a.1) _ e1 in let (c, _, e3) = bind-eq-ok (o b.0 b.1) _ e2 in cc

-- Whatever stands on its two sides, an operator with assignment never parses: `binary_operator`
-- knows none of those tokens.
pub assign_op_never :
    (f : ℕ) (p : Precedence) (ty : TokenType) (t : Token) (left : Expression) (s : Parser)
    (r : Expression × Parser)
    → infix_of ty ≡ assigns_op
    → infix_expr f assigns_op p ty t left s ≢ ok r
unfolding infix_expr
assign_op_never zero p ty t left s r h e = cc
assign_op_never (suc f) p ty t left s r h e =
    fourth_step_fails (lift (expect_identifier left)) (expression f min)
      (λ right_expr. lift (expect_value right_expr)) (binary_operator ty)
      (λ target right_value operator.
        infix_loop f p (assignment target (new_binary operator (variable_ref target) right_value)))
      s r _ (binary_operator-assigns ty h) e

-- With `return` as the one token in the lookahead, the loop of an expression at the lowest
-- precedence consumes it and ends with the expression it has.
pub infix_loop_return :
    (f : ℕ) (t : Token) (left : Expression) (s : Parser)
    → get_type t ≡ some return_kw
    → infix_loop (suc (suc (suc f))) min left (looking (t ∷ []) s) ≡ ok (left, looking [] s)
unfolding infix_loop infix_round infix_expr infix_of current_precedence next_type consume_indented
    for_token peek consume look_ahead fill pop_back
infix_loop_return f t left s h = simp h
