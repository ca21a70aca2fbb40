-- ===== src/Identify/Types/Exprs/Keeps.antt =====
-- src/identify/types/expr_namer.rs: the pass reads the types and adds none.
use protosnirk.Prelude.{
  ◌≡◌, refl, ◌∙◌, Bool, true, false, Option, none, some, List, [], ◌∷◌, if◌then◌else◌,
}
use protosnirk.Ast.Index.{ScopedId, is_default}
use protosnirk.Ast.Identifier.{TypeExpression, named, name}
use protosnirk.Ast.Identifier.{Identifier}
use protosnirk.Ast.Stmt.{
  Statement, Block, Statements, Conditionals, ElseBlock, expression, return_stmt, declaration,
  do_block, if_block, block, no_stmts, stmt, no_conditionals, conditional, no_else, else_block,
}
use protosnirk.Ast.Item.{BlockFnDeclaration, Item, SourceUnit, block_fn_declaration, typedef}
use protosnirk.Identify.TypeScope.{named_type_id}
use protosnirk.Identify.Types.Naming.{TypeIdentifier, visit_type_expr, named_on}
use protosnirk.Identify.Types.Exprs.{
  visit_declared, visit_stmt, walk_conditionals, walk_else, visit_block, walk_stmts,
  visit_block_fn_decl, visit_item, walk_unit, visit_unit,
}

named_on-keeps :
    (o : Option ScopedId) (i : Identifier) (s : TypeIdentifier)
    → (named_on o i s).1.builder ≡ s.builder
unfolding named_on
named_on-keeps none i s = refl
named_on-keeps (some id) i s = refl

visit_declared-keeps :
    (decl : Option TypeExpression) (s : TypeIdentifier)
    → (visit_declared decl s).1.builder ≡ s.builder
unfolding visit_declared visit_type_expr
visit_declared-keeps none s = refl
visit_declared-keeps (some (named i)) s = named_on-keeps (named_type_id (name i) s.builder) i s

mutual
  unfolding visit_stmt walk_conditionals walk_else visit_block walk_stmts

  visit_stmt-keeps : (t : Statement) (s : TypeIdentifier) → (visit_stmt t s).1.builder ≡ s.builder
  visit_stmt-keeps (expression e) s = refl
  visit_stmt-keeps (return_stmt value sp) s = refl
  visit_stmt-keeps (declaration m i decl value sp) s = visit_declared-keeps decl s
  visit_stmt-keeps (do_block b sp) s = visit_block-keeps b s
  visit_stmt-keeps (if_block cs e id source sp) s =
      walk_else-keeps e (walk_conditionals cs s).1 ∙ walk_conditionals-keeps cs s

  walk_conditionals-keeps :
      (cs : Conditionals) (s : TypeIdentifier) → (walk_conditionals cs s).1.builder ≡ s.builder
  walk_conditionals-keeps no_conditionals s = refl
  walk_conditionals-keeps (conditional c b sp rest) s =
      walk_conditionals-keeps rest (visit_block b s).1 ∙ visit_block-keeps b s

  walk_else-keeps : (e : ElseBlock) (s : TypeIdentifier) → (walk_else e s).1.builder ≡ s.builder
  walk_else-keeps no_else s = refl
  walk_else-keeps (else_block b) s = visit_block-keeps b s

  visit_block-keeps : (b : Block) (s : TypeIdentifier) → (visit_block b s).1.builder ≡ s.builder
  visit_block-keeps (block ss id source sp) s = walk_stmts-keeps ss s

  walk_stmts-keeps :
      (ss : Statements) (s : TypeIdentifier) → (walk_stmts ss s).1.builder ≡ s.builder
  walk_stmts-keeps no_stmts s = refl
  walk_stmts-keeps (stmt t rest) s = walk_stmts-keeps rest (visit_stmt t s).1 ∙ visit_stmt-keeps t s

visit_item-keeps : (i : Item) (s : TypeIdentifier) → (visit_item i s).1.builder ≡ s.builder
unfolding visit_item visit_block_fn_decl
visit_item-keeps (block_fn_declaration f) s = go (is_default f.ident.id)
  where
    kept : BlockFnDeclaration × TypeIdentifier
    kept = (record f { block = (visit_block f.block s).0 }, (visit_block f.block s).1)

    chosen : Bool → BlockFnDeclaration × TypeIdentifier
    chosen b = if b then (f, s) else kept

    go : (b : Bool) → (chosen b).1.builder ≡ s.builder
    go true = refl
    go false = visit_block-keeps f.block s
visit_item-keeps (typedef t) s = refl

walk_unit-keeps : (is : List Item) (s : TypeIdentifier) → (walk_unit is s).1.builder ≡ s.builder
unfolding walk_unit
walk_unit-keeps [] s = refl
walk_unit-keeps (i ∷ rest) s = walk_unit-keeps rest (visit_item i s).1 ∙ visit_item-keeps i s

pub visit_unit-keeps :
    (u : SourceUnit) (s : TypeIdentifier) → (visit_unit u s).1.builder ≡ s.builder
unfolding visit_unit
visit_unit-keeps u s = walk_unit-keeps u.items s
