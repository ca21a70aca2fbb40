-- ===== src/Identify/Names/Statements.antt =====
-- src/identify/names/expr_namer.rs: `ExpressionVarIdentifier` on statements, blocks and units.
pub mod Runs
pub mod Blocks
pub mod Units
use protosnirk.Prelude.{Bool, true, false, not, Option, none, some, List, [], ◌∷◌, if◌then◌else◌}
use protosnirk.Prelude.Maps.{text_has_eq}
use protosnirk.Prelude.States.{Action, pure, gets, modify, attempt, expect, total, ◌>>=◌, ◌>>◌}
use protosnirk.Lex.Span.{Span, between, origin}
use protosnirk.Ast.Index.{ScopedId, is_default, pushed, popped}
use protosnirk.Ast.Identifier
use protosnirk.Ast.Identifier.{Identifier, TypeExpression, set_id, name}
use protosnirk.Ast.Expression.{Expression}
use protosnirk.Ast.Stmt
use protosnirk.Ast.Stmt.{
  Statement, Block, Statements, Conditionals, ElseBlock, expression, return_stmt, declaration,
  do_block, if_block, block, no_stmts, stmt, no_conditionals, conditional, no_else, else_block,
}
use protosnirk.Ast.Item
use protosnirk.Ast.Item.{BlockFnDeclaration, Item, SourceUnit, block_fn_declaration, typedef}
use protosnirk.Check.Errors.{variable_declared, empty_block_expression, if_without_else}
use protosnirk.Identify.ScopeBuilder.{ScopeBuilder, new_scope, pop, get, info_for, define_local}
use protosnirk.Identify.OriginManager.{
  add_source, has_source, pop_source, begin_block, end_block, top_source,
}
use protosnirk.Identify.Names.State.{
  ExpressionVarIdentifier, NameScopeBuilder, report, on_lvalues, on_builder, on_id, step_id,
}
use protosnirk.Identify.Names.Expressions.{visit_expression, end_source}

abbrev pub Visits : Type 0 → Type 0
Visits A = Action ExpressionVarIdentifier A

-- `Span::default()`
abbrev default_span : Span
default_span = between origin origin

-- The scope under the current id.
abbrev pub enter : Visits (Unit {0})
enter = modify λ s. on_builder new_scope (on_id pushed s)

-- The way back: the id goes on to the next one.
abbrev pub leave : Visits (Unit {0})
leave = do modify λ s. on_builder pop (on_id popped s); step_id

-- `pop_source().expect("Checked expect")`
unfoldable pub take_source : Visits ScopedId
take_source = do
  source ← gets (λ s. top_source s.lvalues)
  modify (on_lvalues (λ m. (pop_source m).1))
  expect source

unfoldable pub with_builder :
    ExpressionVarIdentifier → Option NameScopeBuilder → Option ExpressionVarIdentifier
with_builder s none = none
with_builder s (some b) = some (record s { builder = b })

-- `visit_declaration` of a name that is new.
unfoldable pub declare :
    Bool → Identifier → Option TypeExpression → Expression → Span → Visits Statement
unfolding with_builder
declare m ident decl value sp = do
  value' ← total (visit_expression value)
  id ← gets (λ s. s.current_id)
  attempt (λ s. with_builder s (define_local (name ident) id sp s.builder))
  step_id
  pure (declaration m (set_id id ident) decl value' sp)

-- The error for a name that has an id already; its declaration is not visited.
unfoldable pub redeclared : ScopedId → Statement → Identifier → Span → Visits Statement
redeclared var_id same ident sp = do
  known ← gets (λ s. info_for var_id s.builder)
  origin_span ← expect known
  modify (report (sp ∷ origin_span ∷ []) (variable_declared (name ident)))
  pure same

declare_on :
    Option ScopedId
    → Bool
    → Identifier
    → Option TypeExpression
    → Expression
    → Span
    → Visits Statement
declare_on (some var_id) m ident decl value sp =
    redeclared var_id (declaration m ident decl value sp) ident sp
declare_on none m ident decl value sp = declare m ident decl value sp

unfoldable pub visit_declaration :
    Bool → Identifier → Option TypeExpression → Expression → Span → Visits Statement
unfolding declare_on
visit_declaration m ident decl value sp = do
  found ← gets (λ s. get (name ident) s.builder)
  declare_on found m ident decl value sp

-- `visit_return_stmt`
unfoldable pub visit_return : Option Expression → Span → Visits Statement
visit_return none sp = pure (return_stmt none sp)
visit_return (some e) sp = do
  modify (λ s. on_lvalues (add_source s.current_fn_id) s)
  e' ← total (visit_expression e)
  modify (λ s. end_source s.current_fn_id s)
  pure (return_stmt (some e') sp)

unfoldable pub add_source_if : Bool → ScopedId → Visits (Unit {0})
add_source_if true id = modify (on_lvalues (add_source id))
add_source_if false id = pure tt

-- The rest of `visit_if_block`, on whether the block returns a value: the conditionals and the else
-- block are visited by what is passed for them.
unfoldable pub visit_if :
    Bool
    → Conditionals
    → ElseBlock
    → ScopedId
    → Option ScopedId
    → Span
    → Visits Conditionals
    → Visits ElseBlock
    → Visits Statement
visit_if true cs no_else id source sp conds els = do
  modify (report (sp ∷ []) if_without_else)
  pure (if_block cs no_else id source sp)
visit_if true cs (else_block b) id source sp conds els = do
  source' ← take_source
  cs' ← conds
  e' ← els
  modify (on_id popped)
  step_id
  pure (if_block cs' e' id (some source') sp)
visit_if false cs e id source sp conds els = do
  cs' ← conds
  e' ← els
  modify (on_id popped)
  step_id
  pure (if_block cs' e' id source sp)

-- The rest of `visit_block`, on whether the block returns a value: its statements are visited by
-- what is passed for either case.
unfoldable pub visit_body :
    Bool
    → Statements
    → ScopedId
    → Option ScopedId
    → Span
    → Visits Statements
    → Visits Statements
    → Visits Block
visit_body true no_stmts id source sp valued plain = do
  modify (report (default_span ∷ []) empty_block_expression)
  modify (on_lvalues (λ m. (pop_source m).1))
  pure (block no_stmts id source sp)
visit_body true (stmt s rest) id source sp valued plain = do
  source' ← take_source
  modify (on_lvalues begin_block)
  ss' ← valued
  leave
  pure (block ss' id (some source') sp)
visit_body false ss id source sp valued plain = do ss' ← plain; leave; pure (block ss' id source sp)

-- Before the last statement of a block that returns a value, its source becomes the block.
unfoldable pub before_last : Statements → ScopedId → Visits (Unit {0})
before_last no_stmts id = do
  modify (on_lvalues (λ m. (end_block m).1))
  modify (on_lvalues (add_source id))
before_last (stmt s rest) id = pure tt

unfoldable mutual
  -- `visit_stmt`, with `visit_if_block`.
  pub visit_stmt : Statement → Visits Statement
  visit_stmt (expression e) = do e' ← total (visit_expression e); pure (expression e')
  visit_stmt (return_stmt value sp) = visit_return value sp
  visit_stmt (declaration m ident decl value sp) = visit_declaration m ident decl value sp
  visit_stmt (do_block b sp) = do b' ← visit_block b; pure (do_block b' sp)
  visit_stmt (if_block cs e old_id source sp) = do
    id ← gets (λ s. s.current_id)
    modify (on_id pushed)
    has_lvalue ← gets (λ s. has_source s.lvalues)
    visit_if has_lvalue cs e id source sp (visit_conditionals has_lvalue id cs)
        (visit_else has_lvalue id e)

  pub visit_conditionals : Bool → ScopedId → Conditionals → Visits Conditionals
  visit_conditionals has_lvalue id no_conditionals = pure no_conditionals
  visit_conditionals has_lvalue id (conditional c b sp rest) = do
    c' ← total (visit_expression c)
    add_source_if has_lvalue id
    b' ← visit_block b
    rest' ← visit_conditionals has_lvalue id rest
    pure (conditional c' b' sp rest')

  pub visit_else : Bool → ScopedId → ElseBlock → Visits ElseBlock
  visit_else has_lvalue id no_else = pure no_else
  visit_else has_lvalue id (else_block b) = do
    add_source_if has_lvalue id
    b' ← visit_block b
    pure (else_block b')

  pub visit_block : Block → Visits Block
  visit_block (block ss old_id source sp) = do
    id ← gets (λ s. s.current_id)
    enter
    has_lvalue ← gets (λ s. has_source s.lvalues)
    visit_body has_lvalue ss id source sp (visit_valued id ss) (walk_block ss)

  -- The statements of a block that returns a value: the last one has the block as its source.
  pub visit_valued : ScopedId → Statements → Visits Statements
  visit_valued id no_stmts = pure no_stmts
  visit_valued id (stmt s rest) = do
    before_last rest id
    s' ← visit_stmt s
    rest' ← visit_valued id rest
    pure (stmt s' rest')

  pub walk_block : Statements → Visits Statements
  walk_block no_stmts = pure no_stmts
  walk_block (stmt s rest) = do s' ← visit_stmt s; rest' ← walk_block rest; pure (stmt s' rest')

-- The loop over the parameters; `false` is its early return.
unfoldable pub define_params : List (Identifier × TypeExpression) → Visits Bool
unfolding with_builder
define_params [] = pure true
define_params ((param, ty) ∷ rest) =
    if is_default param.id
    then pure false
    else (attempt (λ s.
          with_builder s (define_local (name param) param.id (Identifier.span param) s.builder))
        >> define_params rest)

fn_block : Bool → BlockFnDeclaration → Visits BlockFnDeclaration
fn_block false f = pure f
fn_block true f = do
  add_source_if f.explicit_ret_ty f.ident.id
  modify (λ s. record s { current_fn_id = f.ident.id })
  b ← visit_block f.block
  modify (λ s. on_builder pop (on_lvalues (λ m. (pop_source m).1) s))
  pure (record f { block = b })

identified_fn : BlockFnDeclaration → Visits BlockFnDeclaration
unfolding fn_block
identified_fn f = do
  modify (λ s. record s { current_id = pushed f.ident.id; builder = new_scope s.builder })
  all ← define_params f.params
  fn_block all f

-- `visit_block_fn_decl`
unfoldable pub visit_block_fn_decl : BlockFnDeclaration → Visits BlockFnDeclaration
unfolding identified_fn
visit_block_fn_decl f = if is_default f.ident.id then pure f else identified_fn f

-- `visit_item`: type definitions are skipped.
unfoldable pub visit_item : Item → Visits Item
visit_item (block_fn_declaration f) = do f' ← visit_block_fn_decl f; pure (block_fn_declaration f')
visit_item (typedef t) = pure (typedef t)

unfoldable pub walk_unit : List Item → Visits (List Item)
walk_unit [] = pure []
walk_unit (i ∷ rest) = do i' ← visit_item i; rest' ← walk_unit rest; pure (i' ∷ rest')

-- `visit_unit`
unfoldable pub visit_unit : SourceUnit → Visits SourceUnit
visit_unit u = do
  modify (on_builder new_scope)
  items ← walk_unit u.items
  modify (on_builder pop)
  step_id
  pure (record u { items = items })
