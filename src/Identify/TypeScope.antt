-- ===== src/Identify/TypeScope.antt =====
-- src/identify/type_scope_builder.rs.
use protosnirk.Prelude.{Option, none, some, List, [], ◌∷◌, Text, codes}
use protosnirk.Prelude.Maps.{Map, lookup, insert, text_has_eq}
use protosnirk.Ast.Index.{ScopedId, default_id, incremented, scoped_id_has_eq}
use protosnirk.Identify.ConcreteType.{ConcreteType, named_type}

abbrev pub primitive_type_names : List Text
primitive_type_names = codes "()" ∷ codes "bool" ∷ codes "float" ∷ []

pub record TypeScopeBuilder : Type 0 where
  pub names : Map Text ScopedId
  pub types : Map ScopedId ConcreteType
  pub current_id : ScopedId

-- `get_type`
abbrev pub get_type : ScopedId → TypeScopeBuilder → Option ConcreteType
get_type id b = lookup id b.types

-- `named_type_id`
abbrev pub named_type_id : Text → TypeScopeBuilder → Option ScopedId
named_type_id name b = lookup name b.names

-- `and_then(|id| self.types.get(id))`
abbrev type_at : Option ScopedId → TypeScopeBuilder → Option ConcreteType
type_at none b = none
type_at (some id) b = get_type id b

-- `named_type`
abbrev pub type_named : Text → TypeScopeBuilder → Option ConcreteType
type_named name b = type_at (named_type_id name b) b

-- `add_type`
abbrev pub add_type : ScopedId → ConcreteType → TypeScopeBuilder → TypeScopeBuilder
add_type id ty b = record b { types = insert id ty b.types }

-- `add_named_type`
abbrev pub add_named_type : Text → ScopedId → ConcreteType → TypeScopeBuilder → TypeScopeBuilder
add_named_type name id ty b = record b {
  names = insert name id b.names;
  types = insert id ty b.types;
}

unfoldable pub stepped : TypeScopeBuilder → Option ScopedId → Option TypeScopeBuilder
stepped b none = none
stepped b (some id) = some (record b { current_id = id })

unfoldable pub with_primitive : Text → TypeScopeBuilder → Option TypeScopeBuilder
unfolding stepped
with_primitive name b =
    stepped (add_named_type name b.current_id (named_type name) b) (incremented b.current_id)

-- The loop over the primitive types.
unfoldable pub add_primitives : List Text → Option TypeScopeBuilder → Option TypeScopeBuilder
unfolding with_primitive
add_primitives names none = none
add_primitives [] (some b) = some b
add_primitives (name ∷ names) (some b) = add_primitives names (with_primitive name b)

unfoldable pub empty_at : Option ScopedId → Option TypeScopeBuilder
empty_at none = none
empty_at (some id) = some (record { names = []; types = []; current_id = id })

-- `TypeScopeBuilder::with_primitives`
unfoldable pub with_primitives : Option TypeScopeBuilder
unfolding empty_at
with_primitives = add_primitives primitive_type_names (empty_at (incremented default_id))
