-- ===== src/Parse/Tests.antt =====
-- src/parse: the parser at work on a few tokens.
use protosnirk.Prelude.{some, ◌≡◌, ◌≢◌, refl, ok, bind, [], ◌∷◌, ◌++◌, codes, arith}
use protosnirk.Lex.Span.{origin}
use protosnirk.Lex.Token
use protosnirk.Lex.Token.{Token, TokenData, symbol, keyword, new_ident, new_eof}
use protosnirk.Lex.Tokens.{plus_equals, type_of, get_type, eof, plus, star, minus}
use protosnirk.Ast.Identifier
use protosnirk.Ast.Expression.{Expression, variable_ref}
use protosnirk.Parse.Precedence.{min, for_token}
use protosnirk.Parse.State.{Parser, new_parser, peek, consume}
use protosnirk.Parse.State.Order.{looking, consume-peek, consume_last}
use protosnirk.Parse.Expressions.{infix_of, infix_expr, infix_loop, expression, assigns_op}
use protosnirk.Ast.Operator.{addition, multiplication, negation}
use protosnirk.Parse.Operators.{binary_operator, unary_operator}
use protosnirk.Parse.Expressions.Trees.{Tree, Fits, name, unary, binary, print, build, tightness}
use protosnirk.Parse.Expressions.Steps.{fresh, loaded}
use protosnirk.Parse.Expressions.Printing.{expression-print}
use protosnirk.Parse.Expressions.Faults.{assign_op_never, infix_loop_return}

abbrev pub name_a : Token
name_a = new_ident (codes "a") origin

abbrev pub name_b : Token
name_b = new_ident (codes "b") origin

abbrev add_to : Token
add_to = Token.new (codes "+=") origin symbol

abbrev returns : Token
returns = Token.new (codes "return") origin keyword

abbrev two_names : Parser
two_names = new_parser (name_a ∷ name_b ∷ []) origin

consume-peek_example : consume two_names ≡ bind (peek two_names) (λ (t, s'). ok (t, looking [] s'))
consume-peek_example = consume-peek two_names (omega arith)

consume_last_example :
    (peek (looking (name_a ∷ (returns ∷ []) ++ name_b ∷ []) two_names)
      ≡ ok (name_a, looking (name_a ∷ (returns ∷ []) ++ name_b ∷ []) two_names))
    × (consume (looking (name_a ∷ (returns ∷ []) ++ name_b ∷ []) two_names)
        ≡ ok (name_b, looking (name_a ∷ returns ∷ []) two_names))
consume_last_example = consume_last two_names name_a name_b (returns ∷ [])

abbrev a : Expression
a = variable_ref (Identifier.new name_a)

assign_op_never_example :
    infix_expr 9 assigns_op min plus_equals add_to a two_names ≢ ok (a, two_names)
unfolding infix_of
assign_op_never_example = assign_op_never 9 min plus_equals add_to a two_names (a, two_names) refl

infix_loop_return_example :
    infix_loop 4 min a (looking (returns ∷ []) two_names) ≡ ok (a, looking [] two_names)
unfolding type_of
infix_loop_return_example = infix_loop_return 1 returns a two_names refl

abbrev plus_sign : Token
plus_sign = Token.new (codes "+") origin symbol

abbrev star_sign : Token
star_sign = Token.new (codes "*") origin symbol

abbrev minus_sign : Token
minus_sign = Token.new (codes "-") origin symbol

-- `a + -b * a`
abbrev sum : Tree
sum = binary addition plus plus_sign (name name_a) (
    binary multiplication star star_sign (unary negation minus minus_sign (name name_b))
      (name name_a))

sum-Fits : Fits 1 sum
unfolding type_of for_token binary_operator unary_operator
sum-Fits = (refl, refl, omega arith, refl, (refl, refl, omega arith, (refl, refl, refl), refl))

end_type : get_type (new_eof origin) ≡ some eof
unfolding type_of
end_type = refl

eof_tightness : tightness eof ≡ 0
unfolding for_token
eof_tightness = refl

expression-print_example :
    expression 30 min (fresh origin (print sum (new_eof origin ∷ [])))
    ≡ ok (build sum, loaded origin (new_eof origin) [])
expression-print_example =
    expression-print sum 30 min origin eof (new_eof origin) [] sum-Fits (omega arith) end_type
      (omega (arith, eof_tightness)) (omega (arith, eof_tightness))
