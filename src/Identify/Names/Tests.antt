-- ===== src/Identify/Names/Tests.antt =====
-- src/identify/names and src/identify/types: the passes at work.
use protosnirk.Prelude.{◌≡◌, refl, true, false, none, some, [], ◌∷◌, Text, codes, text_eq, arith}
use protosnirk.Prelude.Maps.{lookup, insert, text_has_eq}
use protosnirk.Prelude.States.{Gives}
use protosnirk.Lex.Span.{origin, between}
use protosnirk.Lex.Token
use protosnirk.Lex.Token.{Token, symbol}
use protosnirk.Ast.Index.{default_id, is_default, incremented, same_id}
use protosnirk.Ast.Identifier
use protosnirk.Ast.Identifier.{Identifier, named}
use protosnirk.Ast.Expression.{Expression, variable_ref, assignment}
use protosnirk.Ast.Stmt.{Block, block, stmt, no_stmts, expression, declaration, do_block}
use protosnirk.Ast.Item.{BlockFnDeclaration, SourceUnit, block_fn_declaration, typedef}
use protosnirk.Check.Errors.{new_collector}
use protosnirk.Identify.ScopeBuilder as Scopes
use protosnirk.Identify.ScopeBuilder.{new_scope, get}
use protosnirk.Identify.Names.State
use protosnirk.Identify.Names.State.{ExpressionVarIdentifier, NameScopeBuilder}
use protosnirk.Identify.Names.Frame.{Ready}
use protosnirk.Identify.Names.Expressions.{visit_expression}
use protosnirk.Identify.Names.Expressions.Resolve.{
  resolve, faults, logged, visit_expression-resolve,
}
use protosnirk.Identify.Names.Statements
use protosnirk.Identify.Names.Statements.{visit_block}
use protosnirk.Identify.Names.Statements.Runs.{frame, BlockPost, IsReady}
use protosnirk.Identify.Names.Statements.Blocks.{visit_block-restores}
use protosnirk.Identify.Names.Statements.Units as Units
use protosnirk.Identify.Types.Naming.{TypeIdentifier}
use protosnirk.Identify.Types.Items as ItemTypes
use protosnirk.Identify.Types.Items.Runs as TypeRuns
use protosnirk.Identify.Types.Items.Primitives.{with_primitives-Named}
use protosnirk.Identify.ConcreteType.{named_type}
use protosnirk.Identify.TypeScope.{
  TypeScopeBuilder, with_primitives, add_primitives, with_primitive, stepped, empty_at,
}
use protosnirk.Identify.Passes
use protosnirk.Identify.Passes.{AstIdentifier}
use protosnirk.Identify.Passes.Returns.{IsIdentified, visit_unit-returns}

abbrev ident : Text → Identifier
ident x = Identifier.new (Token.new x origin symbol)

abbrev ident_x : Identifier
ident_x = ident (codes "x")

abbrev ident_y : Identifier
ident_y = ident (codes "y")

abbrev one_scope : NameScopeBuilder
one_scope = new_scope Scopes.new

abbrev start : ExpressionVarIdentifier
start = State.new new_collector one_scope default_id

start-Ready : Ready (frame start)
unfolding lookup
start-Ready = ((λ key id found. cc, tt), omega arith, omega arith)

-- `x = y`
abbrev assigned : Expression
assigned = assignment ident_x (variable_ref ident_y)

visit_expression-resolve_example :
    visit_expression assigned start
    ≡ (resolve start.builder assigned, logged (faults start.builder assigned) start)
visit_expression-resolve_example = visit_expression-resolve assigned start

-- A block with `let x = y` and a block with `x` in it.
abbrev nested : Block
nested =
    block
      (stmt (declaration false ident_x none (variable_ref ident_y) (between origin origin)) (
        stmt
          (do_block
            (block (stmt (expression (variable_ref ident_x)) no_stmts) default_id none
              (between origin origin))
            (between origin origin))
          no_stmts))
      default_id none (between origin origin)

visit_block-restores_example : Gives (BlockPost start) (visit_block nested start)
visit_block-restores_example = visit_block-restores nested start start-Ready

-- A function `f(x: y) -> y` with that block.
abbrev function : BlockFnDeclaration
function = record {
  ident = ident (codes "f");
  params = (ident_x, named ident_y) ∷ [];
  ret_ty = named ident_y;
  explicit_ret_ty = true;
  block = nested;
  span = between origin origin;
}

abbrev pub a_unit : SourceUnit
a_unit = record {
  items =
      block_fn_declaration function
      ∷ typedef (record {
        alias_ident = ident_x;
        type_expr = named ident_y;
        span = between origin origin;
      })
      ∷ [];
  span = between origin origin;
}

name_exprs-returns_example : Gives IsReady (Statements.visit_unit a_unit start)
name_exprs-returns_example = Units.name_exprs-returns a_unit start start-Ready

abbrev no_types : TypeIdentifier
no_types = record {
  errors = new_collector;
  builder = record { names = []; types = []; current_id = default_id };
}

no_types-Named : TypeRuns.Named no_types.builder
unfolding lookup
no_types-Named key id found = cc

pub fresh_default : is_default default_id ≡ true
unfolding is_default
fresh_default = refl

type_items-returns_example : Gives TypeRuns.IsReady (ItemTypes.visit_unit a_unit no_types)
type_items-returns_example =
    TypeRuns.type_items-returns a_unit no_types no_types-Named
      ((fresh_default, tt), fresh_default, (fresh_default, tt))

-- The types that a run starts from.
abbrev pub primitives : TypeScopeBuilder
primitives = record {
  names =
      (codes "()", record { indices = 1 ∷ [] })
      ∷ (codes "bool", record { indices = 2 ∷ [] })
      ∷ (codes "float", record { indices = 3 ∷ [] })
      ∷ [];
  types =
      (record { indices = 1 ∷ [] }, named_type (codes "()"))
      ∷ (record { indices = 2 ∷ [] }, named_type (codes "bool"))
      ∷ (record { indices = 3 ∷ [] }, named_type (codes "float"))
      ∷ [];
  current_id = record { indices = 4 ∷ [] };
}

pub with_primitives_lem : with_primitives ≡ some primitives
unfolding with_primitives add_primitives with_primitive stepped empty_at incremented insert text_eq
    same_id
with_primitives_lem = refl

abbrev new_identifier : AstIdentifier
new_identifier = record { var_scope = Scopes.new; type_scope = primitives; errors = new_collector }

visit_unit-returns_example : Gives IsIdentified (Passes.visit_unit a_unit new_identifier)
visit_unit-returns_example =
    visit_unit-returns a_unit new_identifier tt
      (with_primitives-Named primitives with_primitives_lem)
      ((fresh_default, tt), fresh_default, (fresh_default, tt))
