-- ===== src/Parse/Statements.antt =====
-- src/parse/parser.rs and src/parse/parsers/statement: statements and blocks. The fuel is that of
-- `Parse.Expressions`.
use protosnirk.Prelude.{ℕ, zero, suc, Bool, true, false, Option, none, some, if◌then◌else◌}
use protosnirk.Lex.Token.{Token}
use protosnirk.Lex.Tokens.{
  TokenType, ◌==ₜ◌, mut_kw, let_kw, return_kw, do_kw, if_kw, else_kw, colon, equals, inline_arrow,
  begin_block, end_block, eof,
}
use protosnirk.Ast.Identifier
use protosnirk.Ast.Identifier.{Identifier, TypeExpression}
use protosnirk.Ast.Expression.{Expression, new_if}
use protosnirk.Ast.Stmt
use protosnirk.Ast.Stmt.{
  Statement, Block, Statements, Conditionals, no_stmts, stmt, no_conditionals, no_else, else_block,
  new_block, new_return, new_declaration, new_do, new_conditional, new_if_block, push_conditional,
  push_stmt,
}
use protosnirk.Parse.Errors.{
  parse_error, expect_value, expected_token, lazy_string, inline_if_else_if, inline_else_if_block,
  after_else,
}
use protosnirk.Parse.Precedence.{min, ret}
use protosnirk.Parse.Operators.{type_expr}
use protosnirk.Parse.Expressions.{expression, starved}
use protosnirk.Parse.State.{
  P, pure, fail, lift, type_of_token, peek, consume, next_type, consume_type, peek_is_newline,
  ◌>>=◌, ◌>>◌,
}

-- `Parser::lvalue`
unfoldable pub lvalue : P Identifier
lvalue = do
  t ← consume
  ty ← type_of_token t
  if ty ==ₜ TokenType.ident
      then pure (Identifier.new t)
      else fail (parse_error (expected_token TokenType.ident ty t))

take_mut : Bool → P Bool
take_mut true = consume >> pure true
take_mut false = pure false

-- The type behind a `:`, if there is one.
decl_type : Bool → P (Option TypeExpression)
decl_type true = do consume; ty ← type_expr; pure (some ty)
decl_type false = pure none

-- `DeclarationParser`
unfoldable pub parse_declaration : ℕ → Token → P Statement
unfolding take_mut decl_type
parse_declaration f t = do
  first ← next_type
  is_mutable ← take_mut (first ==ₜ mut_kw)
  name ← lvalue
  second ← next_type
  decl ← decl_type (second ==ₜ colon)
  consume_type equals
  value_expr ← expression f min
  value ← lift (expect_value value_expr)
  pure (new_declaration t.start name is_mutable decl value)

return_value : ℕ → Token → P Statement
return_value f t = do
  inner_expr ← expression f ret
  inner ← lift (expect_value inner_expr)
  pure (new_return t.start (some inner))

unless_eof : ℕ → Token → P Statement
unfolding return_value
unless_eof f t = do
  next ← next_type
  if next ==ₜ eof then pure (new_return t.start none) else return_value f t

-- `ReturnParser`
unfoldable pub parse_return : ℕ → Token → P Statement
unfolding unless_eof
parse_return f t = do
  newline ← peek_is_newline t
  if newline then pure (new_return t.start none) else unless_eof f t

else_value : ℕ → Token → Expression → Expression → P Statement
else_value f t condition true_expr = do
  else_expr ← expression f min
  pure (Statement.expression (new_if t.start condition true_expr else_expr))

-- The inline form in `IfBlockParser`.
unfoldable pub inline_if : ℕ → Token → Expression → P Statement
unfolding else_value
inline_if f t condition = do
  consume
  true_expr ← expression f min
  consume_type else_kw
  ty ← next_type
  if ty ==ₜ if_kw
      then fail (parse_error (lazy_string inline_if_else_if))
      else else_value f t condition true_expr

-- The parsers of statements, by the type of the first token.
pub data StatementKind : Type 0 where
  let_stmt return_stmt do_stmt if_stmt expression_stmt : StatementKind

unfoldable pub statement_kind : TokenType → StatementKind
statement_kind let_kw = let_stmt
statement_kind return_kw = return_stmt
statement_kind do_kw = do_stmt
statement_kind if_kw = if_stmt
statement_kind _ = expression_stmt

-- What follows an `else`.
pub data ElseKind : Type 0 where
  begins_block chains_if no_block : ElseKind

unfoldable pub else_kind : TokenType → ElseKind
else_kind begin_block = begins_block
else_kind if_kw = chains_if
else_kind _ = no_block

unfoldable mutual
  -- `Parser::statement`
  pub statement : ℕ → P Statement
  statement zero = starved
  statement (suc f) = do ty ← next_type; statement_of f (statement_kind ty)

  pub statement_of : ℕ → StatementKind → P Statement
  statement_of zero k = starved
  statement_of (suc f) let_stmt = do t ← consume; parse_declaration f t
  statement_of (suc f) return_stmt = do t ← consume; parse_return f t
  statement_of (suc f) do_stmt = do t ← consume; do_block f t
  statement_of (suc f) if_stmt = do t ← consume; if_block f t
  statement_of (suc f) expression_stmt = do e ← expression f min; pure (Statement.expression e)

  -- `Parser::block`
  pub block : ℕ → P Block
  block zero = starved
  block (suc f) = do
    first ← peek
    found ← block_stmts f no_stmts
    pure (new_block first.start found)

  -- The loop of `block`, with the statements found so far.
  pub block_stmts : ℕ → Statements → P Statements
  block_stmts zero found = starved
  block_stmts (suc f) found = do
    ty ← next_type
    if ty ==ₜ eof
        then pure found
        else if ty ==ₜ end_block
        then (consume >> pure found)
        else block_stmt f found

  pub block_stmt : ℕ → Statements → P Statements
  block_stmt zero found = starved
  block_stmt (suc f) found = do s ← statement f; block_stmts f (push_stmt found s)

  -- `DoBlockParser`
  pub do_block : ℕ → Token → P Statement
  do_block zero t = starved
  do_block (suc f) t = do ty ← next_type; if ty ==ₜ begin_block then do_lines f t else do_inline f t

  pub do_lines : ℕ → Token → P Statement
  do_lines zero t = starved
  do_lines (suc f) t = do consume; b ← block f; pure (new_do t.start b)

  pub do_inline : ℕ → Token → P Statement
  do_inline zero t = starved
  do_inline (suc f) t = do
    s ← statement f
    pure (new_do t.start (new_block (Stmt.span s).start (stmt s no_stmts)))

  -- `IfBlockParser`
  pub if_block : ℕ → Token → P Statement
  if_block zero t = starved
  if_block (suc f) t = do
    condition ← expression f min
    ty ← next_type
    if ty ==ₜ inline_arrow then inline_if f t condition else if_lines f t condition

  pub if_lines : ℕ → Token → Expression → P Statement
  if_lines zero t condition = starved
  if_lines (suc f) t condition = do
    consume_type begin_block
    b ← block f
    else_chain f t (new_conditional t.start condition b no_conditionals)

  -- The loop of `IfBlockParser`, with the conditionals found so far.
  pub else_chain : ℕ → Token → Conditionals → P Statement
  else_chain zero t found = starved
  else_chain (suc f) t found = do
    ty ← next_type
    if ty ==ₜ else_kw then else_branch f t found else pure (new_if_block t.start found no_else)

  pub else_branch : ℕ → Token → Conditionals → P Statement
  else_branch zero t found = starved
  else_branch (suc f) t found = do
    else_token ← consume
    ty ← next_type
    else_of f (else_kind ty) t else_token found

  pub else_of : ℕ → ElseKind → Token → Token → Conditionals → P Statement
  else_of zero k t else_token found = starved
  else_of (suc f) begins_block t else_token found = do
    consume
    b ← block f
    pure (new_if_block t.start found (else_block b))
  else_of (suc f) chains_if t else_token found = do
    consume
    condition ← expression f min
    ty ← next_type
    if ty ==ₜ inline_arrow
        then fail (parse_error (lazy_string inline_else_if_block))
        else else_if_lines f t else_token condition found
  else_of (suc f) no_block t else_token found = do
    next ← peek
    fail (parse_error (lazy_string (after_else next)))

  pub else_if_lines : ℕ → Token → Token → Expression → Conditionals → P Statement
  else_if_lines zero t else_token condition found = starved
  else_if_lines (suc f) t else_token condition found = do
    consume_type begin_block
    b ← block f
    else_chain f t
        (push_conditional found (new_conditional else_token.start condition b no_conditionals))
