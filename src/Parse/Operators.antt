-- ===== src/Parse/Operators.antt =====
-- src/parse/parser.rs and src/parse/parsers: operators, literals and type expressions.
use protosnirk.Prelude.{
  true, false, Option, none, some, codes, text_eq, if◌then◌else◌, Outcome, ok, err,
}
use protosnirk.Lex.Token.{Token, number_literal, bool_literal, unit_literal}
use protosnirk.Lex.Tokens.{
  TokenType, ident, literal, plus, minus, star, slash, percent, double_equals, not_equals,
  left_angle, right_angle, less_than_equals, greater_than_equals,
}
use protosnirk.Ast.Operator.{
  BinaryOperator, UnaryOperator, addition, subtraction, multiplication, division, modulus, equality,
  non_equality, less_than, greater_than, less_than_equals as le_op, greater_than_equals as ge_op,
  negation,
}
use protosnirk.Ast.Expression.{
  Expression, Decimal, literal as literal_expr, bool, float, unit, parse_f64,
}
use protosnirk.Ast.Identifier
use protosnirk.Ast.Identifier.{Identifier, TypeExpression, named}
use protosnirk.Parse.Errors.{
  Failure, parse_error, unknown_operator, expected_token, lazy_string, unexpected_type,
}
use protosnirk.Parse.State.{P, pure, fail, type_of_token, consume, next_type, ◌>>=◌}

-- `Parser::binary_operator`
unfoldable pub binary_operator : TokenType → Outcome Failure BinaryOperator
binary_operator plus = ok addition
binary_operator minus = ok subtraction
binary_operator star = ok multiplication
binary_operator slash = ok division
binary_operator percent = ok modulus
binary_operator double_equals = ok equality
binary_operator not_equals = ok non_equality
binary_operator left_angle = ok less_than
binary_operator right_angle = ok greater_than
binary_operator less_than_equals = ok le_op
binary_operator greater_than_equals = ok ge_op
binary_operator ty = err (parse_error (unknown_operator ty))

-- `Parser::unary_operator`
unfoldable pub unary_operator : TokenType → Outcome Failure UnaryOperator
unary_operator minus = ok negation
unary_operator plus = ok UnaryOperator.addition
unary_operator ty = err (parse_error (unknown_operator ty))

-- `LiteralParser`
not_a_literal : Token → P Expression
not_a_literal t = do ty ← type_of_token t; fail (parse_error (expected_token literal ty t))

float_value : Token → Option Decimal → P Expression
float_value t none = not_a_literal t
float_value t (some d) = pure (literal_expr (record { token = t; value = float d }))

bool_value : Token → P Expression
bool_value t =
    if text_eq t.text (codes "true")
    then pure (literal_expr (record { token = t; value = bool true }))
    else if text_eq t.text (codes "false")
    then pure (literal_expr (record { token = t; value = bool false }))
    else not_a_literal t

unfoldable pub parse_literal : Token → P Expression
unfolding float_value bool_value not_a_literal
parse_literal t = elim t.kind [
  | number_literal ↦ float_value t (parse_f64 t.text)
  | bool_literal ↦ bool_value t
  | unit_literal ↦ pure (literal_expr (record { token = t; value = unit }))
  | _ ↦ not_a_literal t
]

-- `Parser::type_expr`, with `NamedTypeParser`.
unfoldable pub type_expr : P TypeExpression
type_expr = do
  ty ← next_type
  elim ty [
    | ident ↦ consume >>= λ t. pure (named (Identifier.new t))
    | other ↦ fail (parse_error (lazy_string (unexpected_type other)))
  ]
