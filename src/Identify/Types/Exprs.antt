-- ===== src/Identify/Types/Exprs.antt =====
-- src/identify/types/expr_namer.rs: `ExprTypeIdentifier`. A type stands in a declaration only, so
-- that its visits of expressions change nothing.
pub mod Keeps
use protosnirk.Prelude.{Option, none, some, List, [], ◌∷◌, if◌then◌else◌}
use protosnirk.Ast.Index.{is_default}
use protosnirk.Ast.Identifier.{TypeExpression}
use protosnirk.Ast.Stmt.{
  Statement, Block, Statements, Conditionals, ElseBlock, expression, return_stmt, declaration,
  do_block, if_block, block, no_stmts, stmt, no_conditionals, conditional, no_else, else_block,
}
use protosnirk.Ast.Item.{BlockFnDeclaration, Item, SourceUnit, block_fn_declaration, typedef}
use protosnirk.Identify.Types.Naming.{TypeIdentifier, visit_type_expr}

-- A visit that cannot panic.
abbrev pub Visit : Type 0 → Type 0
Visit A = TypeIdentifier → A × TypeIdentifier

unfoldable pub visit_declared : Option TypeExpression → Visit (Option TypeExpression)
visit_declared none s = (none, s)
visit_declared (some ty) s = let (ty', s') = visit_type_expr ty s in (some ty', s')

unfoldable mutual
  -- `visit_stmt`, with the visitor of each kind of statement.
  pub visit_stmt : Statement → Visit Statement
  visit_stmt (expression e) s = (expression e, s)
  visit_stmt (return_stmt value sp) s = (return_stmt value sp, s)
  visit_stmt (declaration m i decl value sp) s =
      let (decl', s') = visit_declared decl s in (declaration m i decl' value sp, s')
  visit_stmt (do_block b sp) s = let (b', s') = visit_block b s in (do_block b' sp, s')
  visit_stmt (if_block cs e id source sp) s =
      let (cs', s₁) = walk_conditionals cs s in
      let (e', s₂) = walk_else e s₁ in (if_block cs' e' id source sp, s₂)

  -- `walk_if_block`
  pub walk_conditionals : Conditionals → Visit Conditionals
  walk_conditionals no_conditionals s = (no_conditionals, s)
  walk_conditionals (conditional c b sp rest) s =
      let (b', s₁) = visit_block b s in
      let (rest', s₂) = walk_conditionals rest s₁ in (conditional c b' sp rest', s₂)

  pub walk_else : ElseBlock → Visit ElseBlock
  walk_else no_else s = (no_else, s)
  walk_else (else_block b) s = let (b', s') = visit_block b s in (else_block b', s')

  -- `visit_block`, with `walk_block`.
  pub visit_block : Block → Visit Block
  visit_block (block ss id source sp) s =
      let (ss', s') = walk_stmts ss s in (block ss' id source sp, s')

  pub walk_stmts : Statements → Visit Statements
  walk_stmts no_stmts s = (no_stmts, s)
  walk_stmts (stmt t rest) s =
      let (t', s₁) = visit_stmt t s in let (rest', s₂) = walk_stmts rest s₁ in (stmt t' rest', s₂)

-- `visit_block_fn_decl`
unfoldable pub visit_block_fn_decl : BlockFnDeclaration → Visit BlockFnDeclaration
visit_block_fn_decl f s =
    let (b, s') = visit_block f.block s in
    if is_default f.ident.id then (f, s) else (record f { block = b }, s')

-- `visit_item`: type definitions are skipped.
unfoldable pub visit_item : Item → Visit Item
visit_item (block_fn_declaration f) s =
    let (f', s') = visit_block_fn_decl f s in (block_fn_declaration f', s')
visit_item (typedef t) s = (typedef t, s)

-- `walk_unit`
unfoldable pub walk_unit : List Item → Visit (List Item)
walk_unit [] s = ([], s)
walk_unit (i ∷ rest) s =
    let (i', s₁) = visit_item i s in let (rest', s₂) = walk_unit rest s₁ in (i' ∷ rest', s₂)

-- `visit_unit`
unfoldable pub visit_unit : SourceUnit → Visit SourceUnit
visit_unit u s = let (items, s') = walk_unit u.items s in (record u { items = items }, s')
