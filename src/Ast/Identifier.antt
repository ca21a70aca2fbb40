-- ===== src/Ast/Identifier.antt =====
-- src/ast/mod.rs and src/ast/types.rs: identifiers and type expressions. What the program keeps in
-- a `RefCell` is a field here, and a pass that sets it returns the new node.
use protosnirk.Prelude.{Text}
use protosnirk.Lex.Span.{Span}
use protosnirk.Lex.Token
use protosnirk.Lex.Token.{Token}
use protosnirk.Ast.Index.{ScopedId, default_id}

pub record Identifier : Type 0 where
  pub token : Token
  pub id : ScopedId

-- `Identifier::new`
abbrev pub new : Token → Identifier
new t = record { token = t; id = default_id }

abbrev pub name : Identifier → Text
name i = i.token.text

-- `Identifier::set_id`
abbrev pub set_id : ScopedId → Identifier → Identifier
set_id id i = record i { id = id }

abbrev pub span : Identifier → Span
span i = Token.span i.token

-- `TypeExpression` and `NamedTypeExpression`.
pub data TypeExpression : Type 0 where
  named : Identifier → TypeExpression

abbrev pub type_ident : TypeExpression → Identifier
type_ident (named i) = i

-- `TypeExpression::id`
abbrev pub type_id : TypeExpression → ScopedId
type_id t = (type_ident t).id

abbrev pub type_span : TypeExpression → Span
type_span t = span (type_ident t)
