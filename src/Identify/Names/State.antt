-- ===== src/Identify/Names/State.antt =====
-- src/identify/names/expr_namer.rs: the state of `ExpressionVarIdentifier`.
use protosnirk.Prelude.{Option, none, some, List, Text}
use protosnirk.Prelude.Maps.{text_has_eq}
use protosnirk.Prelude.States.{Action, attempt}
use protosnirk.Lex.Span.{Span}
use protosnirk.Ast.Index.{ScopedId, default_id, incremented}
use protosnirk.Check.Errors.{ErrorCollector, Format, add_error, new_error}
use protosnirk.Identify.ScopeBuilder.{ScopeBuilder}
use protosnirk.Identify.OriginManager
use protosnirk.Identify.OriginManager.{OriginManager}

-- `NameScopeBuilder`
abbrev pub NameScopeBuilder : Type 0
NameScopeBuilder = ScopeBuilder Text Span

pub record ExpressionVarIdentifier : Type 0 where
  pub errors : ErrorCollector
  pub builder : NameScopeBuilder
  pub current_id : ScopedId
  pub current_fn_id : ScopedId
  pub lvalues : OriginManager

-- `ExpressionVarIdentifier::new`
abbrev pub new : ErrorCollector → NameScopeBuilder → ScopedId → ExpressionVarIdentifier
new errors builder id = record {
  errors = errors;
  builder = builder;
  current_id = id;
  current_fn_id = default_id;
  lvalues = OriginManager.new;
}

abbrev pub report : List Span → Format → ExpressionVarIdentifier → ExpressionVarIdentifier
report spans text s = record s { errors = add_error (new_error spans text) s.errors }

abbrev pub on_lvalues :
    (OriginManager → OriginManager) → ExpressionVarIdentifier → ExpressionVarIdentifier
on_lvalues f s = record s { lvalues = f s.lvalues }

abbrev pub on_builder :
    (NameScopeBuilder → NameScopeBuilder) → ExpressionVarIdentifier → ExpressionVarIdentifier
on_builder f s = record s { builder = f s.builder }

abbrev pub on_id : (ScopedId → ScopedId) → ExpressionVarIdentifier → ExpressionVarIdentifier
on_id f s = record s { current_id = f s.current_id }

abbrev with_id : ExpressionVarIdentifier → Option ScopedId → Option ExpressionVarIdentifier
with_id s none = none
with_id s (some id) = some (record s { current_id = id })

-- `self.current_id.increment()`, which panics on an id without indices.
abbrev pub step_id : Action ExpressionVarIdentifier (Unit {0})
step_id = attempt λ s. with_id s (incremented s.current_id)
