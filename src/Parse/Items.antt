-- ===== src/Parse/Items.antt =====
-- src/parse/parser.rs and src/parse/parsers/item: items and whole files.
use protosnirk.Prelude.{
  ℕ, zero, suc, ◌+◌, ◌*◌, Bool, true, false, List, [], ◌∷◌, ◌++◌, codes, length, if◌then◌else◌,
  Outcome, bind, ok,
}
use protosnirk.Lex.Span.{Location, between}
use protosnirk.Lex.Token
use protosnirk.Lex.Token.{Token, new_ident}
use protosnirk.Lex.Tokens.{
  TokenType, ◌==ₜ◌, fn_kw, typedef_kw, left_paren, right_paren, comma, colon, equals, arrow,
  begin_block, eof,
}
use protosnirk.Ast.Identifier
use protosnirk.Ast.Identifier.{Identifier, TypeExpression, named}
use protosnirk.Ast.Item.{Item, SourceUnit, block_fn_declaration, typedef, new_fn, new_typedef}
use protosnirk.Parse.Errors.{Failure, parse_error, lazy_string, unexpected_item}
use protosnirk.Parse.Operators.{type_expr}
use protosnirk.Parse.Expressions.{starved}
use protosnirk.Parse.Statements.{lvalue, block}
use protosnirk.Parse.State.{
  P, pure, fail, peek, consume, next_type, apply_indentation, consume_type, consume_type_indented,
  negate_deindent, new_parser, ◌>>=◌, ◌>>◌,
}

abbrev pub Params : Type 0
Params = List (Identifier × TypeExpression)

unfoldable pub param : P (Identifier × TypeExpression)
param = do
  apply_indentation negate_deindent
  name ← lvalue
  consume_type colon
  ty ← type_expr
  pure (name, ty)

-- The loop of `FnDeclarationParser` over the parameters: whether a name comes next, and those
-- found so far.
unfoldable mutual
  pub params : ℕ → Bool → Params → P Params
  params zero name found = starved
  params (suc f) name found = do
    ty ← next_type
    if ty ==ₜ right_paren then (consume >> pure found) else param_step f name found

  pub param_step : ℕ → Bool → Params → P Params
  param_step zero name found = starved
  param_step (suc f) true found = do p ← param; params f false (found ++ p ∷ [])
  param_step (suc f) false found = do
    consume_type_indented comma negate_deindent
    params f true found

-- The type behind an arrow, or `()` at the name.
return_type : Bool → Identifier → P (TypeExpression × Bool)
return_type true name = do consume; ty ← type_expr; pure (ty, true)
return_type false name =
    pure (named (Identifier.new (new_ident (codes "()") name.token.start)), false)

-- `FnDeclarationParser`
unfoldable pub parse_fn : ℕ → Token → P Item
unfolding return_type
parse_fn f t = do
  name ← lvalue
  consume_type left_paren
  ps ← params f true []
  ty ← next_type
  (ret_ty, explicit) ← return_type (ty ==ₜ arrow) name
  consume_type begin_block
  b ← block f
  pure (block_fn_declaration (new_fn t.start name ps ret_ty explicit b))

-- `TypedefParser`
unfoldable pub parse_typedef : Token → P Item
parse_typedef t = do
  name ← lvalue
  consume_type equals
  ty ← type_expr
  pure (typedef (new_typedef t.start name ty))

-- The parser of an item, by the type of its first token.
item_of : ℕ → TokenType → Token → P Item
item_of f fn_kw t = parse_fn f t
item_of f typedef_kw t = parse_typedef t
item_of f ty t = fail (parse_error (lazy_string (unexpected_item ty)))

-- `Parser::item`
unfoldable pub item : ℕ → P Item
unfolding item_of
item f = do ty ← next_type; t ← consume; item_of f ty t

-- The loop of `parse_unit`, with the items found so far.
unfoldable pub items : ℕ → List Item → P (List Item)
items zero found = starved
items (suc f) found = do
  ty ← next_type
  if ty ==ₜ eof then pure found else (item f >>= λ i. items f (found ++ i ∷ []))

-- `Parser::parse_unit`
unfoldable pub parse_unit : ℕ → P SourceUnit
parse_unit f = do
  first ← peek
  found ← items f []
  last ← peek
  pure (record { items = found; span = between first.start (Token.end last) })

-- The unit that some tokens and the end of the text parse to.
unfoldable pub parse : List Token → Location → Outcome Failure SourceUnit
parse ts l = bind (parse_unit (16 * length ts + 16) (new_parser ts l)) λ (u, s). ok u
