-- ===== src/Ast/Stmt.antt =====
-- src/ast/stmt.rs, and `Block` of src/ast/mod.rs.
use protosnirk.Prelude.{Bool, true, false, Option, none, some}
use protosnirk.Lex.Span.{Location, Span, between, offset}
use protosnirk.Ast.Expression
use protosnirk.Ast.Expression.{Expression}
use protosnirk.Ast.Identifier.{Identifier, TypeExpression}
use protosnirk.Ast.Index.{ScopedId, default_id}

-- A block has its statements, its id, its source and its span; an if block its conditionals, its
-- `else`, its id, its source and its span.
mutual
  pub data Statement : Type 0 where
    expression : Expression → Statement
    return_stmt : Option Expression → Span → Statement
    declaration : Bool → Identifier → Option TypeExpression → Expression → Span → Statement
    do_block : Block → Span → Statement
    if_block : Conditionals → ElseBlock → ScopedId → Option ScopedId → Span → Statement

  pub data Block : Type 0 where
    block : Statements → ScopedId → Option ScopedId → Span → Block

  pub data Statements : Type 0 where
    no_stmts : Statements
    stmt : Statement → Statements → Statements

  -- Each `Conditional` is a condition, a block and a span.
  pub data Conditionals : Type 0 where
    no_conditionals : Conditionals
    conditional : Expression → Block → Span → Conditionals → Conditionals

  pub data ElseBlock : Type 0 where
    no_else : ElseBlock
    else_block : Block → ElseBlock

abbrev pub block_span : Block → Span
block_span (block ss id source sp) = sp

abbrev is_some {ℓ} : {A : Type ℓ} → Option A → Bool
is_some none = false
is_some (some a) = true

abbrev pub block_has_source : Block → Bool
block_has_source (block ss id source sp) = is_some source

-- `Statement::span`
unfoldable pub span : Statement → Span
span (expression e) = Expression.span e
span (return_stmt v s) = s
span (declaration m i t v s) = s
span (do_block b s) = s
span (if_block cs e id source s) = s

-- `Return::has_value`
return_has_value : Option Expression → Bool
return_has_value none = false
return_has_value (some e) = Expression.has_value e

-- `Statement::has_value`
unfoldable pub has_value : Statement → Bool
unfolding return_has_value
has_value (expression e) = Expression.has_value e
has_value (return_stmt v s) = return_has_value v
has_value (declaration m i t v s) = false
has_value (do_block b s) = block_has_source b
has_value (if_block cs e id source s) = is_some source

unfoldable pub last_stmt : Statements → Option Statement
last_stmt no_stmts = none
last_stmt (stmt s no_stmts) = some s
last_stmt (stmt s (stmt t rest)) = last_stmt (stmt t rest)

block_end : Location → Option Statement → Location
block_end start none = start
block_end start (some s) = (span s).end

-- `Block::new`
unfoldable pub new_block : Location → Statements → Block
unfolding block_end last_stmt span Expression.span
new_block start ss = block ss default_id none (between start (block_end start (last_stmt ss)))

return_end : Location → Option Expression → Location
return_end start none = offset start 5
return_end start (some e) = (Expression.span e).end

-- `Return::new`
unfoldable pub new_return : Location → Option Expression → Statement
unfolding return_end Expression.span
new_return start value = return_stmt value (between start (return_end start value))

-- `Declaration::new`
unfoldable pub new_declaration :
    Location → Identifier → Bool → Option TypeExpression → Expression → Statement
unfolding Expression.span
new_declaration start ident mutable decl value =
    declaration mutable ident decl value (between start (Expression.span value).end)

-- `DoBlock::new`
unfoldable pub new_do : Location → Block → Statement
new_do start b = do_block b (between start (block_span b).end)

-- `Conditional::new`, in front of others.
unfoldable pub new_conditional : Location → Expression → Block → Conditionals → Conditionals
new_conditional start condition b rest =
    conditional condition b (between start (block_span b).end) rest

-- The end of the last conditional.
conditionals_end : Location → Conditionals → Location
conditionals_end start no_conditionals = start
conditionals_end start (conditional c b s rest) = conditionals_end s.end rest

if_end : Location → Conditionals → ElseBlock → Location
if_end start cs no_else = conditionals_end start cs
if_end start cs (else_block b) = (block_span b).end

-- `IfBlock::new`; the program never calls it with no conditional.
unfoldable pub new_if_block : Location → Conditionals → ElseBlock → Statement
unfolding if_end conditionals_end
new_if_block start cs e = if_block cs e default_id none (between start (if_end start cs e))

unfoldable pub push_conditional : Conditionals → Conditionals → Conditionals
push_conditional no_conditionals c = c
push_conditional (conditional x b s rest) c = conditional x b s (push_conditional rest c)

unfoldable pub push_stmt : Statements → Statement → Statements
push_stmt no_stmts s = stmt s no_stmts
push_stmt (stmt t rest) s = stmt t (push_stmt rest s)
