-- ===== src/Pipeline/Reports.antt =====
-- src/pipeline/mod.rs: what `IdentifyRunner::identify` makes of the passes.
use protosnirk.Prelude.{◌≡◌, ◌≢◌, refl, Option, none, some, List, [], ◌∷◌, inl, inr}
use protosnirk.Prelude.Maps.{text_has_eq}
use protosnirk.Prelude.States.{Gives, gives}
use protosnirk.Ast.Index.{scoped_id_has_eq}
use protosnirk.Ast.Item.{SourceUnit}
use protosnirk.Check.Errors.{CheckerError}
use protosnirk.Identify.ScopeBuilder.Known.{AllKnown}
use protosnirk.Identify.Types.Items.Runs.{Named, FreshItems}
use protosnirk.Identify.Passes
use protosnirk.Identify.Passes.{AstIdentifier}
use protosnirk.Identify.Passes.Returns.{IsIdentified, visit_unit-returns}
use protosnirk.Identify.Petgraph.{Petgraph}
use protosnirk.Identify.TypeGraph.{TypeNode, InferenceSource}
use protosnirk.Identify.Typographer
use protosnirk.Identify.Typographer.State
use protosnirk.Identify.Typographer.State.{Typographer}
use protosnirk.Pipeline.{
  Runner, Run, identification_error, checking_error, check_errors, after_typing, type_unit,
  bind_run, after_naming, identify,
}

module _ {G : Type 0} where
  -- The state that `ASTIdentifier` starts from.
  abbrev pub names_from : Runner G → AstIdentifier
  names_from r = record {
    var_scope = r.name_builder;
    type_scope = r.type_builder;
    errors = r.errors;
  }

-- The ways in which `identify` can end, by the runs of its two visitors: the error of the first one,
-- the error of the second one on the unit that the first one has named, success, and a panic of the
-- second one. The second one runs only if the first one has reported nothing.
pub data Identified {G : Type 0} ⦃p : Petgraph G TypeNode InferenceSource⦄ (r : Runner G)
    : Run G (Runner G) → Type 0 where
  stops :
      (u : SourceUnit) (s : AstIdentifier)
      → Passes.visit_unit r.source (names_from r) ≡ some (u, s)
      → s.errors.errors ≢ []
      → Identified r (some (inl (identification_error u s.var_scope s.type_scope s.errors)))
  fails :
      (u : SourceUnit) (s : AstIdentifier) (t : Typographer G)
      → Passes.visit_unit r.source (names_from r) ≡ some (u, s)
      → s.errors.errors ≡ []
      → Typographer.visit_unit u (State.new s.type_scope s.errors r.graph) ≡ some (tt, t)
      → t.errors.errors ≢ []
      → Identified r (some (inl (checking_error u t.builder t.graph t.errors)))
  accepts :
      (u : SourceUnit) (s : AstIdentifier) (t : Typographer G)
      → Passes.visit_unit r.source (names_from r) ≡ some (u, s)
      → s.errors.errors ≡ []
      → Typographer.visit_unit u (State.new s.type_scope s.errors r.graph) ≡ some (tt, t)
      → t.errors.errors ≡ []
      → Identified r (
          some (
            inr (record r {
              source = u;
              name_builder = s.var_scope;
              type_builder = t.builder;
              graph = t.graph;
              errors = t.errors;
            })))
  panics :
      (u : SourceUnit) (s : AstIdentifier)
      → Passes.visit_unit r.source (names_from r) ≡ some (u, s)
      → s.errors.errors ≡ []
      → Typographer.visit_unit u (State.new s.type_scope s.errors r.graph) ≡ none
      → Identified r none

module _ {G : Type 0} ⦃p : Petgraph G TypeNode InferenceSource⦄ (r : Runner G) where
  -- The runner behind `ASTIdentifier`.
  abbrev named : SourceUnit → AstIdentifier → Runner G
  named u s = record r {
    source = u;
    name_builder = s.var_scope;
    type_builder = s.type_scope;
    errors = s.errors;
  }

  checks :
      (u : SourceUnit) (s : AstIdentifier) (t : Typographer G) (es : List CheckerError)
      → Passes.visit_unit r.source (names_from r) ≡ some (u, s)
      → s.errors.errors ≡ []
      → Typographer.visit_unit u (State.new s.type_scope s.errors r.graph) ≡ some (tt, t)
      → t.errors.errors ≡ es
      → Identified r (
          some (
            check_errors es (checking_error u t.builder t.graph t.errors) (record (named u s) {
              type_builder = t.builder;
              graph = t.graph;
              errors = t.errors;
            })))
  unfolding check_errors
  checks u s t [] v e w f = accepts u s t v e w f
  checks u s t (x ∷ xs) v e w f = fails u s t v e w λ k. cc

  types :
      (u : SourceUnit) (s : AstIdentifier) (o : Option (Unit {0} × Typographer G))
      → Passes.visit_unit r.source (names_from r) ≡ some (u, s)
      → s.errors.errors ≡ []
      → Typographer.visit_unit u (State.new s.type_scope s.errors r.graph) ≡ o
      → Identified r (after_typing (named u s) o)
  unfolding after_typing
  types u s none v e w = panics u s v e w
  types u s (some (done, t)) v e w = checks u s t t.errors.errors v e w refl

  names :
      (u : SourceUnit) (s : AstIdentifier) (es : List CheckerError)
      → Passes.visit_unit r.source (names_from r) ≡ some (u, s)
      → s.errors.errors ≡ es
      → Identified r (
          bind_run
            (check_errors es (identification_error u s.var_scope s.type_scope s.errors) (named u s))
            type_unit)
  unfolding bind_run check_errors type_unit
  names u s [] v e = types u s _ v e refl
  names u s (x ∷ xs) v e = stops u s v λ k. cc

  runs :
      (o : Option (SourceUnit × AstIdentifier))
      → Passes.visit_unit r.source (names_from r) ≡ o
      → Gives IsIdentified o
      → Identified r (after_naming r o)
  unfolding after_naming
  runs o v (gives u s ready) = names u s s.errors.errors v refl

  -- Where every name in scope has its information, every named type an id with a type, and the type
  -- expressions of the unit have not been identified, `identify` gets through `ASTIdentifier`. If that
  -- has reported errors, the result is the identification error with the named unit, its scopes and
  -- those errors, and the type graph is not built. If not, the graph is built for the named unit: the
  -- result is the checking error with the errors of that, or the runner with the named unit and no
  -- errors. Nothing but the construction of the graph can panic.
  pub identify-Identified :
      AllKnown r.name_builder.defined r.name_builder.scopes
      → Named r.type_builder
      → FreshItems r.source.items
      → Identified r (identify r)
  unfolding identify
  identify-Identified known named_types fresh =
      runs _ refl (visit_unit-returns r.source (names_from r) known named_types fresh)
