-- ===== src/Identify/Typographer.antt =====
-- src/identify/types/mod.rs: `ASTTypeChecker`, and the passes that it runs.
pub mod State
pub mod Items
pub mod Exprs
pub mod Stmts
use protosnirk.Prelude.{ℕ}
use protosnirk.Prelude.States.{pure, ◌>>=◌, ◌>>◌}
use protosnirk.Ast.Item.{SourceUnit}
use protosnirk.Check.Errors.{ErrorCollector}
use protosnirk.Identify.Petgraph.{Petgraph}
use protosnirk.Identify.TypeScope.{TypeScopeBuilder}
use protosnirk.Identify.TypeGraph.{TypeGraph, TypeNode, InferenceSource}
use protosnirk.Identify.Typographer.State.{Typographer, Typing, new}
use protosnirk.Identify.Typographer.Items
use protosnirk.Identify.Typographer.Stmts

module _ {G : Type 0} ⦃p : Petgraph G TypeNode InferenceSource⦄ where
  -- The second pass starts from a state of its own.
  restart : Typing G (Unit {0})
  restart s = pure tt (new s.builder s.errors s.graph)

  -- `visit_unit`; the passes change no node of the unit.
  unfoldable pub visit_unit : SourceUnit → Typing G (Unit {0})
  unfolding restart
  visit_unit u = do Items.visit_unit u; restart; Stmts.visit_unit u
