-- ===== src/Parse/Expressions.antt =====
-- src/parse/parser.rs and src/parse/parsers/expression: `Parser::expression` and the parsers that it
-- calls. Each call costs a unit of fuel.
pub mod Faults
pub mod Trees
pub mod Steps
pub mod Pratt
pub mod Printing
use protosnirk.Prelude.{
  ℕ, zero, suc, Bool, true, false, Option, none, some, if◌then◌else◌, Outcome, ok, err, out_of_fuel,
}
use protosnirk.Lex.Span.{Location, between}
use protosnirk.Lex.Token
use protosnirk.Lex.Token.{Token}
use protosnirk.Lex.Tokens.{
  TokenType, ◌==ₜ◌, ident, literal, plus, minus, star, slash, percent, equals, left_angle,
  right_angle, double_equals, not_equals, plus_equals, minus_equals, star_equals, slash_equals,
  percent_equals, less_than_equals, greater_than_equals, left_paren, right_paren, inline_arrow,
  comma, colon, if_kw, else_kw, end_block, eof,
}
use protosnirk.Ast.Identifier
use protosnirk.Ast.Identifier.{Identifier}
use protosnirk.Ast.Expression.{
  Expression, CallArguments, variable_ref, no_arguments, fn_call, assignment, new_binary, new_unary,
  new_if, push_argument,
}
use protosnirk.Parse.Errors.{
  Failure, parse_error, expect_value, expect_identifier, eof as eof_error, lazy_string,
  unexpected_token, non_named_params,
}
use protosnirk.Parse.Precedence.{Precedence, ◌<ₚ◌, for_token, min, assign}
use protosnirk.Parse.Operators.{binary_operator, unary_operator, parse_literal}
use protosnirk.Parse.State.{
  P, pure, fail, lift, type_of_token, peek, consume, next_type, consume_indented, consume_type,
  consume_type_indented, negate_deindent, ◌>>=◌, ◌>>◌,
}

abbrev pub starved {ℓ} : {A : Type ℓ} → P A
starved s = out_of_fuel

-- `Parser::current_precedence`
unfoldable pub current_precedence : P Precedence
current_precedence = do ty ← next_type; pure (for_token ty false)

-- What an infix token does: `stop` is the `break` of the loop.
pub data Infix : Type 0 where
  assigns applies_op calls assigns_op stop : Infix

unfoldable pub infix_of : TokenType → Infix
infix_of equals = assigns
infix_of plus = applies_op
infix_of minus = applies_op
infix_of star = applies_op
infix_of slash = applies_op
infix_of percent = applies_op
infix_of left_paren = calls
infix_of left_angle = applies_op
infix_of right_angle = applies_op
infix_of less_than_equals = applies_op
infix_of greater_than_equals = applies_op
infix_of double_equals = applies_op
infix_of not_equals = applies_op
infix_of plus_equals = assigns_op
infix_of minus_equals = assigns_op
infix_of star_equals = assigns_op
infix_of percent_equals = assigns_op
infix_of slash_equals = assigns_op
infix_of _ = stop

-- The token types with a prefix parser; `ends` are the two that are an error of their own.
pub data Prefix : Type 0 where
  ends if_expr unary parens identifier literal_value no_prefix : Prefix

unfoldable pub prefix_of : TokenType → Prefix
prefix_of eof = ends
prefix_of end_block = ends
prefix_of if_kw = if_expr
prefix_of minus = unary
prefix_of plus = unary
prefix_of left_paren = parens
prefix_of ident = identifier
prefix_of literal = literal_value
prefix_of _ = no_prefix

unfoldable mutual
  -- `Parser::expression`
  pub expression : ℕ → Precedence → P Expression
  expression zero p = starved
  expression (suc f) p = do
    (indented, t) ← consume_indented negate_deindent
    ty ← type_of_token t
    left ← prefix_expr f (prefix_of ty) ty t
    infix_loop f p left

  -- The first `match` of `expression`, with `IfExpressionParser`, `UnaryOpExprSymbol`,
  -- `ParensParser`, `IdentifierParser` and `LiteralParser`.
  pub prefix_expr : ℕ → Prefix → TokenType → Token → P Expression
  prefix_expr zero k ty t = starved
  prefix_expr (suc f) ends ty t = fail (parse_error eof_error)
  prefix_expr (suc f) if_expr ty t = do
    condition ← expression f min
    consume_type inline_arrow
    true_expr ← expression f min
    consume_type else_kw
    else_expr ← expression f min
    pure (new_if t.start condition true_expr else_expr)
  prefix_expr (suc f) unary ty t = do
    right_expr ← expression f (for_token ty true)
    right_value ← lift (expect_value right_expr)
    operator ← lift (unary_operator ty)
    pure (new_unary t.start operator right_value)
  prefix_expr (suc f) parens ty t = do
    inner_expr ← expression f min
    inner ← lift (expect_value inner_expr)
    consume_type right_paren
    pure inner
  prefix_expr (suc f) identifier ty t = pure (variable_ref (Identifier.new t))
  prefix_expr (suc f) literal_value ty t = parse_literal t
  prefix_expr (suc f) no_prefix ty t = fail (parse_error (lazy_string (unexpected_token t)))

  -- The loop of `expression`.
  pub infix_loop : ℕ → Precedence → Expression → P Expression
  infix_loop zero p left = starved
  infix_loop (suc f) p left = do
    current ← current_precedence
    if p <ₚ current then infix_round f p left else pure left

  -- A round of the loop: the token is consumed before it is known to be an infix.
  pub infix_round : ℕ → Precedence → Expression → P Expression
  infix_round zero p left = starved
  infix_round (suc f) p left = do
    (indented, t) ← consume_indented negate_deindent
    ty ← type_of_token t
    infix_expr f (infix_of ty) p ty t left

  -- The second `match`, with `AssignmentParser`, `BinOpExprSymbol`, `FnCallParser` and
  -- `AssignOpParser`, and the rounds behind it.
  pub infix_expr : ℕ → Infix → Precedence → TokenType → Token → Expression → P Expression
  infix_expr zero k p ty t left = starved
  infix_expr (suc f) assigns p ty t left = do
    target ← lift (expect_identifier left)
    right_expr ← expression f assign
    right ← lift (expect_value right_expr)
    infix_loop f p (assignment target right)
  infix_expr (suc f) applies_op p ty t left = do
    right ← expression f (for_token ty false)
    operator ← lift (binary_operator ty)
    infix_loop f p (new_binary operator left right)
  infix_expr (suc f) calls p ty t left = do
    target ← lift (expect_identifier left)
    args ← call_args f true no_arguments
    end ← peek
    infix_loop f p (fn_call target args (between t.start (Token.end end)))
  infix_expr (suc f) assigns_op p ty t left = do
    target ← lift (expect_identifier left)
    right_expr ← expression f min
    right_value ← lift (expect_value right_expr)
    operator ← lift (binary_operator ty)
    infix_loop f p (assignment target (new_binary operator (variable_ref target) right_value))
  infix_expr (suc f) stop p ty t left = pure left

  -- The loop of `FnCallParser`: whether an argument comes next, and the arguments so far.
  pub call_args : ℕ → Bool → CallArguments → P CallArguments
  call_args zero arg_name args = starved
  call_args (suc f) arg_name args = do
    ty ← next_type
    if ty ==ₜ right_paren then (consume >> pure args) else call_next f arg_name args

  pub call_next : ℕ → Bool → CallArguments → P CallArguments
  call_next zero arg_name args = starved
  call_next (suc f) true args = do arg ← expression f min; call_arg f arg args
  call_next (suc f) false args = do
    consume_type_indented comma negate_deindent
    call_args f true args

  pub call_arg : ℕ → Expression → CallArguments → P CallArguments
  call_arg zero arg args = starved
  call_arg (suc f) (variable_ref param) args = do
    ty ← next_type
    if ty ==ₜ colon
        then named_arg f param args
        else fail (parse_error (lazy_string non_named_params))
  call_arg (suc f) _ args = do consume_type_indented right_paren negate_deindent; pure args

  pub named_arg : ℕ → Identifier → CallArguments → P CallArguments
  named_arg zero param args = starved
  named_arg (suc f) param args = do
    consume
    value ← expression f min
    call_args f false (push_argument args param value)
