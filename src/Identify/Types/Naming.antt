-- ===== src/Identify/Types/Naming.antt =====
-- src/identify/types/type_identifier.rs, and the state of the passes that call it: the errors and
-- the types.
use protosnirk.Prelude.{Option, none, some, List, [], ◌∷◌}
use protosnirk.Prelude.Maps.{text_has_eq}
use protosnirk.Prelude.States.{Action}
use protosnirk.Lex.Span.{Span}
use protosnirk.Ast.Index.{ScopedId}
use protosnirk.Ast.Identifier
use protosnirk.Ast.Identifier.{Identifier, TypeExpression, named, set_id, name}
use protosnirk.Check.Errors.{ErrorCollector, Format, new_error, add_error, unknown_type}
use protosnirk.Identify.TypeScope.{TypeScopeBuilder, named_type_id}

pub record TypeIdentifier : Type 0 where
  pub errors : ErrorCollector
  pub builder : TypeScopeBuilder

abbrev pub Types : Type 0 → Type 0
Types A = Action TypeIdentifier A

abbrev pub complain : List Span → Format → TypeIdentifier → TypeIdentifier
complain spans text s = record s { errors = add_error (new_error spans text) s.errors }

unfoldable pub named_on :
    Option ScopedId → Identifier → TypeIdentifier → TypeExpression × TypeIdentifier
named_on (some id) i s = (named (set_id id i), s)
named_on none i s = (named i, complain (Identifier.span i ∷ []) (unknown_type (name i)) s)

-- `visit_type_expr`, with `visit_named_type_expr`.
unfoldable pub visit_type_expr : TypeExpression → TypeIdentifier → TypeExpression × TypeIdentifier
unfolding named_on
visit_type_expr (named i) s = named_on (named_type_id (name i) s.builder) i s
