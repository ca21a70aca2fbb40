-- ===== src/Pipeline.antt =====
-- src/pipeline/mod.rs: the runners, from a text to a checked unit; `CompileRunner` is in
-- Pipeline/CompileRunner.antt.
pub mod Reports
pub mod CompileRunner
pub mod Tests
use protosnirk.Prelude.{Option, none, some, List, [], ◌∷◌, ◌⊎◌, inl, inr, Text}
use protosnirk.Ast.Item.{SourceUnit}
use protosnirk.Check.Errors.{ErrorCollector, CheckerError, new_collector}
use protosnirk.Check.Concretifier
use protosnirk.Check.Concretifier.{TypeMapping, TypeConcretifier}
use protosnirk.Identify.ScopeBuilder as Scopes
use protosnirk.Identify.Names.State.{NameScopeBuilder}
use protosnirk.Identify.Passes
use protosnirk.Identify.Passes.{AstIdentifier}
use protosnirk.Identify.Petgraph.{Petgraph}
use protosnirk.Identify.TypeScope
use protosnirk.Identify.TypeScope.{TypeScopeBuilder, primitive_type_names}
use protosnirk.Identify.TypeGraph
use protosnirk.Identify.TypeGraph.{TypeGraph, TypeNode, InferenceSource}
use protosnirk.Identify.Typographer
use protosnirk.Identify.Typographer.State
use protosnirk.Identify.Typographer.State.{Typographer}

-- `CompilationError`
pub data CompilationError (G : Type 0) : Type 0 where
  identification_error :
      SourceUnit → NameScopeBuilder → TypeScopeBuilder → ErrorCollector → CompilationError G
  checking_error : SourceUnit → TypeScopeBuilder → TypeGraph G → ErrorCollector → CompilationError G

-- `IdentifyRunner`, and `CheckRunner`, which has the same fields.
pub record Runner (G : Type 0) : Type 0 where
  pub name : Text
  pub source : SourceUnit
  pub errors : ErrorCollector
  pub name_builder : NameScopeBuilder
  pub type_builder : TypeScopeBuilder
  pub graph : TypeGraph G

-- `CheckedUnit`
pub record CheckedUnit : Type 0 where
  pub source : SourceUnit
  pub name : Text
  pub type_map : TypeMapping

-- The result of a runner; its `Err` is on the left, and `none` is a panic.
abbrev pub Run : Type 0 → Type 0 → Type 0
Run G A = Option (CompilationError G ⊎ A)

module _ {G : Type 0} where
  runner_of : SourceUnit → Text → Option TypeScopeBuilder → Option (TypeGraph G) → Option (Runner G)
  runner_of u name none graph = none
  runner_of u name (some types) none = none
  runner_of u name (some types) (some graph) = some record {
    name = name;
    source = u;
    errors = new_collector;
    name_builder = Scopes.new;
    type_builder = types;
    graph = graph;
  }

  -- The answer of a runner, once its errors have been looked at.
  unfoldable pub check_errors {ℓ} :
      {A : Type ℓ} → List CheckerError → CompilationError G → A → CompilationError G ⊎ A
  check_errors [] e a = inr a
  check_errors (x ∷ xs) e a = inl e

module _ {G : Type 0} ⦃p : Petgraph G TypeNode InferenceSource⦄ where
  -- `IdentifyRunner::new`
  unfoldable pub new_runner : SourceUnit → Text → Option (Runner G)
  unfolding runner_of
  new_runner u name =
      runner_of u name TypeScope.with_primitives (TypeGraph.with_primitives primitive_type_names)

  -- The end of `identify`, behind `ASTTypeChecker`.
  after_typing : Runner G → Option (Unit {0} × Typographer G) → Run G (Runner G)
  after_typing r none = none
  after_typing r (some (u, s)) = some (
      check_errors s.errors.errors (checking_error r.source s.builder s.graph s.errors)
        (record r { type_builder = s.builder; graph = s.graph; errors = s.errors }))

  unfoldable pub type_unit : Runner G → Run G (Runner G)
  unfolding after_typing
  type_unit r =
      after_typing r (Typographer.visit_unit r.source (State.new r.type_builder r.errors r.graph))

  bind_run {ℓ} :
      {A : Type ℓ}
      → CompilationError G ⊎ A
      → (A → Option (CompilationError G ⊎ A))
      → Option (CompilationError G ⊎ A)
  bind_run (inl e) f = some (inl e)
  bind_run (inr a) f = f a

  -- The middle of `identify`, behind `ASTIdentifier`.
  after_naming : Runner G → Option (SourceUnit × AstIdentifier) → Run G (Runner G)
  unfolding bind_run
  after_naming r none = none
  after_naming r (some (u, s)) =
      bind_run
        (check_errors s.errors.errors (identification_error u s.var_scope s.type_scope s.errors)
          (record r {
            source = u;
            name_builder = s.var_scope;
            type_builder = s.type_scope;
            errors = s.errors;
          }))
        type_unit

  -- `IdentifyRunner::identify`
  unfoldable pub identify : Runner G → Run G (Runner G)
  unfolding after_naming
  identify r = after_naming r (
      Passes.visit_unit r.source
        record { var_scope = r.name_builder; type_scope = r.type_builder; errors = r.errors })

  after_check : Runner G → Option (Unit {0} × TypeConcretifier G) → Run G CheckedUnit
  after_check r none = none
  after_check r (some (u, s)) = some (
      check_errors s.errors.errors (checking_error r.source r.type_builder s.graph s.errors)
        (record { source = r.source; name = r.name; type_map = s.results }))

  -- `CheckRunner::check`
  unfoldable pub check : Runner G → Run G CheckedUnit
  unfolding after_check
  check r =
      after_check r
        (Concretifier.visit_unit r.source (Concretifier.new r.type_builder r.errors r.graph))
