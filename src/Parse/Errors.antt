-- ===== src/Parse/Errors.antt =====
-- src/parse/errors.rs, and the conversions of src/ast/expression.rs that fail with these errors.
use protosnirk.Prelude.{if◌then◌else◌, Outcome, ok, err}
use protosnirk.Lex.Token.{Token}
use protosnirk.Lex.Tokens.{TokenType}
use protosnirk.Ast.Identifier.{Identifier}
use protosnirk.Ast.Expression.{Expression, literal, variable_ref, has_value}

-- The parser builds errors with `any_expression` alone.
pub data ExpectedNextType : Type 0 where
  any_statement any_expression any_item lvalue rvalue type_expression : ExpectedNextType

-- The messages of `ParseError::LazyString`, with what each is formatted from.
pub data Message : Type 0 where
  unexpected_token : Token → Message
  unexpected_item : TokenType → Message
  unexpected_type : TokenType → Message
  non_named_params inline_if_else_if inline_else_if_block : Message
  after_else : Token → Message

pub data ParseError : Type 0 where
  expected_token : TokenType → TokenType → Token → ParseError
  expected_expression : ExpectedNextType → Expression → ParseError
  expected_lvalue expected_rvalue : Expression → ParseError
  unknown_operator : TokenType → ParseError
  eof : ParseError
  lazy_string : Message → ParseError

-- An error of the parser, the panic of `Token::get_type` on a token that has no type, or that of
-- `consume` on an empty queue.
pub data Failure : Type 0 where
  parse_error : ParseError → Failure
  invalid_token empty_lookahead : Failure

-- `Expression::expect_value`
unfoldable pub expect_value : Expression → Outcome Failure Expression
unfolding has_value
expect_value e =
    if has_value e then ok e else err (parse_error (expected_expression any_expression e))

-- `Expression::expect_identifier`
unfoldable pub expect_identifier : Expression → Outcome Failure Identifier
expect_identifier (variable_ref i) = ok i
expect_identifier (literal l) = err (parse_error (expected_lvalue (literal l)))
expect_identifier e = err (parse_error (expected_lvalue e))
