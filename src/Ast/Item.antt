-- ===== src/Ast/Item.antt =====
-- src/ast/item.rs.
use protosnirk.Prelude.{Bool, List}
use protosnirk.Lex.Span.{Location, Span, between}
use protosnirk.Ast.Identifier.{Identifier, TypeExpression, type_span}
use protosnirk.Ast.Stmt.{Block, block_span}

pub record BlockFnDeclaration : Type 0 where
  pub ident : Identifier
  pub params : List (Identifier × TypeExpression)
  pub ret_ty : TypeExpression
  pub explicit_ret_ty : Bool
  pub block : Block
  pub span : Span

pub record Typedef : Type 0 where
  pub alias_ident : Identifier
  pub type_expr : TypeExpression
  pub span : Span

pub data Item : Type 0 where
  block_fn_declaration : BlockFnDeclaration → Item
  typedef : Typedef → Item

-- The root of the tree; `Unit` is the type with one element here.
pub record SourceUnit : Type 0 where
  pub items : List Item
  pub span : Span

-- `BlockFnDeclaration::new`
abbrev pub new_fn :
    Location
    → Identifier
    → List (Identifier × TypeExpression)
    → TypeExpression
    → Bool
    → Block
    → BlockFnDeclaration
new_fn start ident params ret_ty explicit b = record {
  ident = ident;
  params = params;
  ret_ty = ret_ty;
  explicit_ret_ty = explicit;
  block = b;
  span = between start (block_span b).end;
}

-- `Typedef::new`
abbrev pub new_typedef : Location → Identifier → TypeExpression → Typedef
new_typedef start ident ty = record {
  alias_ident = ident;
  type_expr = ty;
  span = between start (type_span ty).end;
}
