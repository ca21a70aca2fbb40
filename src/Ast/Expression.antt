-- ===== src/Ast/Expression.antt =====
-- src/ast/expression.rs. The value of a float literal is the decimal that its text denotes, before
-- the rounding to an `f64`.
use protosnirk.Prelude.{
  ℕ, ◌+◌, ◌-◌, ◌*◌, Bool, true, false, ◌&&◌, ◌||◌, Option, none, some, [], ◌∷◌, Text, leb, ltb,
  ◌==◌, if◌then◌else◌,
}
use protosnirk.Lex.Span.{Location, Span, between, joined}
use protosnirk.Lex.Token
use protosnirk.Lex.Token.{Token}
use protosnirk.Ast.Identifier
use protosnirk.Ast.Identifier.{Identifier}
use protosnirk.Ast.Operator.{BinaryOperator, UnaryOperator}

-- `digits * 10 ^ (exponent - scale)`.
pub record Decimal : Type 0 where
  pub digits : ℕ
  pub scale : ℕ
  pub exponent : ℕ

pub data LiteralValue : Type 0 where
  bool : Bool → LiteralValue
  float : Decimal → LiteralValue
  unit : LiteralValue

pub record Literal : Type 0 where
  pub token : Token
  pub value : LiteralValue

-- `CallArguments` is the list of the arguments of a call, each a `CallArgument`.
mutual
  pub data Expression : Type 0 where
    literal : Literal → Expression
    variable_ref : Identifier → Expression
    binary_op : BinaryOperator → Expression → Expression → Span → Expression
    unary_op : UnaryOperator → Expression → Span → Expression
    if_expression : Expression → Expression → Expression → Span → Expression
    fn_call : Identifier → CallArguments → Span → Expression
    assignment : Identifier → Expression → Expression

  pub data CallArguments : Type 0 where
    no_arguments : CallArguments
    argument : Identifier → Expression → CallArguments → CallArguments

-- `Expression::has_value`
unfoldable pub has_value : Expression → Bool
has_value (assignment i e) = false
has_value _ = true

-- `Expression::span`, with the `span` of each node.
unfoldable pub span : Expression → Span
span (literal l) = Token.span l.token
span (variable_ref i) = Identifier.span i
span (binary_op o l r s) = s
span (unary_op o e s) = s
span (if_expression c t e s) = s
span (fn_call i args s) = s
span (assignment i e) = joined (Identifier.span i) (span e)

-- `BinaryOperation::new`
unfoldable pub new_binary : BinaryOperator → Expression → Expression → Expression
unfolding span
new_binary o l r = binary_op o l r (joined (span l) (span r))

-- `UnaryOperation::new`
unfoldable pub new_unary : Location → UnaryOperator → Expression → Expression
unfolding span
new_unary start o e = unary_op o e (between start (span e).end)

-- `IfExpression::new`
unfoldable pub new_if : Location → Expression → Expression → Expression → Expression
unfolding span
new_if start c t e = if_expression c t e (between start (span e).end)

-- `args.push(CallArgument::named(param, value))`
unfoldable pub push_argument : CallArguments → Identifier → Expression → CallArguments
push_argument no_arguments i e = argument i e no_arguments
push_argument (argument j d rest) i e = argument j d (push_argument rest i e)

abbrev is_digit : ℕ → Bool
is_digit c = leb b'0' c && leb c b'9'

-- The value of some digits behind `value`, how many there were, and the rest.
eat_digits : ℕ → ℕ → Text → ℕ × ℕ × Text
eat_digits value count [] = (value, count, [])
eat_digits value count (c ∷ cs) =
    if is_digit c
    then eat_digits (10 * value + (c - b'0')) (count + 1) cs
    else (value, count, c ∷ cs)

-- What stands behind the digits: nothing, or an exponent.
with_exponent : ℕ → ℕ → Text → Option Decimal
unfolding eat_digits
with_exponent digits scale [] = some (record { digits = digits; scale = scale; exponent = 0 })
with_exponent digits scale (c ∷ cs) =
    let (value, count, rest) = eat_digits 0 0 cs in
    if (c == b'e' || c == b'E') && ltb 0 count
    then elim rest [
      | [] ↦ some (record { digits = digits; scale = scale; exponent = value })
      | _ ↦ none
    ]
    else none

fraction : ℕ → Text → Option Decimal
unfolding eat_digits with_exponent
fraction whole [] = some (record { digits = whole; scale = 0; exponent = 0 })
fraction whole (c ∷ cs) =
    if c == b'.'
    then (let (digits, scale, rest) = eat_digits whole 0 cs in with_exponent digits scale rest)
    else with_exponent whole 0 (c ∷ cs)

-- `str::parse::<f64>` on the texts of number literals: digits, a fraction and an unsigned exponent.
-- It takes the ASCII digits only.
unfoldable pub parse_f64 : Text → Option Decimal
unfolding eat_digits fraction
parse_f64 text =
    let (whole, count, rest) = eat_digits 0 0 text in
    if ltb 0 count then fraction whole rest else none
