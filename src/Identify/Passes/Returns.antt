-- ===== src/Identify/Passes/Returns.antt =====
-- src/identify/mod.rs: the passes of `ASTIdentifier`, one behind the other.
use protosnirk.Prelude.{◌≤◌, length, Option, arith, sym, subst}
use protosnirk.Prelude.States.{Gives, gives, Gives-after, after, ◌>>=◌}
use protosnirk.Prelude.Returns.{Returns, returns}
use protosnirk.Prelude.Yields.{Returns-both}
use protosnirk.Prelude.Maps.{text_has_eq}
use protosnirk.Ast.Index.{default_id, scoped_id_has_eq}
use protosnirk.Ast.Item.{SourceUnit}
use protosnirk.Identify.ScopeBuilder.Known.{AllKnown}
use protosnirk.Identify.Names.State
use protosnirk.Identify.Names.Frame.{length-pushed}
use protosnirk.Identify.Names.Items.{ItemVarIdentifier}
use protosnirk.Identify.Names.Items.Runs as ItemRuns
use protosnirk.Identify.Names.Items.Fresh
use protosnirk.Identify.Names.Statements.Runs as NameRuns
use protosnirk.Identify.Names.Statements.Units
use protosnirk.Identify.Types.Naming.{TypeIdentifier}
use protosnirk.Identify.Types.Items.Runs as TypeRuns
use protosnirk.Identify.Types.Items.Runs.{Named, FreshItems}
use protosnirk.Identify.Types.Exprs.Keeps.{visit_unit-keeps}
use protosnirk.Identify.Passes.{
  AstIdentifier, first_id, named_items, typed, named_exprs, name_items, type_items, name_exprs,
  type_exprs, visit_unit,
}

-- Every name in scope has its information, and every named type an id with a type.
abbrev pub IsKnown : AstIdentifier → Type 0
IsKnown s = AllKnown s.var_scope.defined s.var_scope.scopes × Named s.type_scope

-- Behind the first pass there is a scope.
abbrev pub IsIdentified : AstIdentifier → Type 0
IsIdentified s = IsKnown s × (1 ≤ length s.var_scope.scopes)

abbrev IsFreshUnit : SourceUnit → AstIdentifier → Type 0
IsFreshUnit u s = IsIdentified s × FreshItems u.items

first_id-length : 1 ≤ length first_id.indices
first_id-length = omega (arith, length-pushed default_id)

behind_items :
    (s : AstIdentifier) (r : Option (SourceUnit × ItemVarIdentifier))
    → Named s.type_scope
    → Returns (λ v t. FreshItems v.items × ItemRuns.IsReady t) r
    → Returns IsFreshUnit (named_items s r)
unfolding named_items
behind_items s r named (returns v t (fresh, (known, deep, long))) =
    returns v _ (((known, named), deep), fresh)

name_items-IsFreshUnit :
    (u : SourceUnit) (s : AstIdentifier)
    → IsKnown s
    → FreshItems u.items
    → Returns IsFreshUnit (name_items u s)
unfolding name_items
name_items-IsFreshUnit u s (known, named) fresh = behind_items s _ named (
    Returns-both (ItemRuns.name_items-returns u _ known first_id-length)
      ((Fresh.visit_unit-FreshItems u fresh).at _))

type_items-IsIdentified :
    (u : SourceUnit) (s : AstIdentifier) → IsFreshUnit u s → Gives IsIdentified (type_items u s)
unfolding type_items typed
type_items-IsIdentified u s (((known, named), deep), fresh) = go (
    TypeRuns.type_items-returns u (record { errors = s.errors; builder = s.type_scope }) named
      fresh)
  where
    go :
        {r : Option (SourceUnit × TypeIdentifier)}
        → Gives TypeRuns.IsReady r
        → Gives IsIdentified (typed s r)
    go (gives v t named') = gives v _ ((known, named'), deep)

name_exprs-IsIdentified :
    (u : SourceUnit) (s : AstIdentifier) → IsIdentified s → Gives IsIdentified (name_exprs u s)
unfolding name_exprs named_exprs
name_exprs-IsIdentified u s ((known, named), deep) = go (
    Units.name_exprs-returns u (State.new s.errors s.var_scope first_id)
      (known, deep, first_id-length))
  where
    go :
        {r : Option (SourceUnit × State.ExpressionVarIdentifier)}
        → Gives NameRuns.IsReady r
        → Gives IsIdentified (named_exprs s r)
    go (gives v t (known', deep', long)) = gives v _ ((known', named), deep')

type_exprs-IsIdentified :
    (u : SourceUnit) (s : AstIdentifier) → IsIdentified s → Gives IsIdentified (type_exprs u s)
unfolding type_exprs typed
type_exprs-IsIdentified u s ((known, named), deep) = gives _ _ (
  (
    known,
    subst Named (sym (visit_unit-keeps u (record { errors = s.errors; builder = s.type_scope })))
        named,
  ),
  deep,
)

-- From a state in which every name in scope has its information and every named type an id with a
-- type, the four passes of `ASTIdentifier` return on every unit whose type expressions have not been
-- identified, one behind the other: none of their panics is reached. Behind them there is a scope,
-- every name in scope has its information and every named type an id with a type.
pub visit_unit-returns :
    (u : SourceUnit) (s : AstIdentifier)
    → AllKnown s.var_scope.defined s.var_scope.scopes
    → Named s.type_scope
    → FreshItems u.items
    → Gives IsIdentified (visit_unit u s)
unfolding visit_unit ◌>>=◌
visit_unit-returns u s known named fresh =
    behind_named (name_items-IsFreshUnit u s (known, named) fresh)
  where
    behind_named :
        {r : Option (SourceUnit × AstIdentifier)}
        → Returns IsFreshUnit r
        → Gives IsIdentified (
            after r
              (λ u₁ s₁. after (type_items u₁ s₁) λ u₂ s₂. after (name_exprs u₂ s₂) type_exprs))
    behind_named (returns u₁ s₁ p) =
        Gives-after IsIdentified IsIdentified (type_items-IsIdentified u₁ s₁ p) λ u₂ s₂ p₂.
          Gives-after IsIdentified IsIdentified (name_exprs-IsIdentified u₂ s₂ p₂)
            type_exprs-IsIdentified
