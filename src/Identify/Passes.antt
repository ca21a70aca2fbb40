-- ===== src/Identify/Passes.antt =====
-- src/identify/mod.rs: `ASTIdentifier`. Its passes share the builders and the errors.
pub mod Returns
use protosnirk.Prelude.{Option, none, some}
use protosnirk.Prelude.States.{Action, ◌>>=◌}
use protosnirk.Ast.Index.{ScopedId, default_id, pushed}
use protosnirk.Ast.Item.{SourceUnit}
use protosnirk.Check.Errors.{ErrorCollector}
use protosnirk.Identify.Names.State
use protosnirk.Identify.Names.State.{NameScopeBuilder, ExpressionVarIdentifier}
use protosnirk.Identify.Names.Items
use protosnirk.Identify.Names.Items.{ItemVarIdentifier}
use protosnirk.Identify.Names.Statements
use protosnirk.Identify.TypeScope.{TypeScopeBuilder}
use protosnirk.Identify.Types.Naming.{TypeIdentifier}
use protosnirk.Identify.Types.Items as ItemTypes
use protosnirk.Identify.Types.Exprs as ExprTypes

pub record AstIdentifier : Type 0 where
  pub var_scope : NameScopeBuilder
  pub type_scope : TypeScopeBuilder
  pub errors : ErrorCollector

abbrev pub Identifies : Type 0 → Type 0
Identifies A = Action AstIdentifier A

abbrev first_id : ScopedId
first_id = pushed default_id

named_items :
    AstIdentifier → Option (SourceUnit × ItemVarIdentifier) → Option (SourceUnit × AstIdentifier)
named_items s none = none
named_items s (some (u, v)) = some (u, record s { var_scope = v.builder; errors = v.errors })

typed : AstIdentifier → Option (SourceUnit × TypeIdentifier) → Option (SourceUnit × AstIdentifier)
typed s none = none
typed s (some (u, v)) = some (u, record s { type_scope = v.builder; errors = v.errors })

named_exprs :
    AstIdentifier
    → Option (SourceUnit × ExpressionVarIdentifier)
    → Option (SourceUnit × AstIdentifier)
named_exprs s none = none
named_exprs s (some (u, v)) = some (u, record s { var_scope = v.builder; errors = v.errors })

-- `ItemVarIdentifier::new(…).visit_unit(unit)`
unfoldable pub name_items : SourceUnit → Identifies SourceUnit
unfolding named_items
name_items u s = named_items s (
    Items.visit_unit u (record { errors = s.errors; builder = s.var_scope; current_id = first_id }))

unfoldable pub type_items : SourceUnit → Identifies SourceUnit
unfolding typed
type_items u s =
    typed s (ItemTypes.visit_unit u (record { errors = s.errors; builder = s.type_scope }))

unfoldable pub name_exprs : SourceUnit → Identifies SourceUnit
unfolding named_exprs
name_exprs u s = named_exprs s (Statements.visit_unit u (State.new s.errors s.var_scope first_id))

unfoldable pub type_exprs : SourceUnit → Identifies SourceUnit
unfolding typed
type_exprs u s =
    typed s (some (ExprTypes.visit_unit u (record { errors = s.errors; builder = s.type_scope })))

-- `visit_unit`
unfoldable pub visit_unit : SourceUnit → Identifies SourceUnit
visit_unit u = do u₁ ← name_items u; u₂ ← type_items u₁; u₃ ← name_exprs u₂; type_exprs u₃
