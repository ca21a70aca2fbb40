-- ===== src/Identify/Types/Items/Primitives.antt =====
-- src/identify/type_scope_builder.rs: the types that every run starts from.
use protosnirk.Prelude.{◌≡◌, refl, subst, eq_of_some, Option, none, some, List, [], ◌∷◌, Text}
use protosnirk.Prelude.Maps.{lookup, text_has_eq}
use protosnirk.Ast.Index.{ScopedId, default_id, incremented}
use protosnirk.Identify.ConcreteType.{named_type}
use protosnirk.Identify.TypeScope.{
  TypeScopeBuilder, add_named_type, stepped, with_primitive, add_primitives, empty_at,
  with_primitives, primitive_type_names,
}
use protosnirk.Identify.Types.Items.Runs.{Named, Named-add_named_type}

-- That a step gives a builder in which every name has an id with a type.
abbrev NamedIf : Option TypeScopeBuilder → Type 0
NamedIf o = (b : TypeScopeBuilder) → o ≡ some b → Named b

stepped-Named : (b : TypeScopeBuilder) (o : Option ScopedId) → Named b → NamedIf (stepped b o)
unfolding stepped
stepped-Named b none known c e = cc
stepped-Named b (some id) known c e = subst Named (eq_of_some e) known

add_primitives-Named :
    (names : List Text) (o : Option TypeScopeBuilder) → NamedIf o → NamedIf (add_primitives names o)
unfolding add_primitives with_primitive
add_primitives-Named names none known b e = cc
add_primitives-Named [] (some c) known b e = known b e
add_primitives-Named (x ∷ names) (some c) known b e =
    add_primitives-Named names (with_primitive x c)
      (stepped-Named (add_named_type x c.current_id (named_type x) c) (incremented c.current_id)
        (Named-add_named_type x c.current_id (named_type x) c (known c refl)))
      b e

empty_at-Named : (o : Option ScopedId) → NamedIf (empty_at o)
unfolding empty_at lookup
empty_at-Named none b e = cc
empty_at-Named (some id) b e = subst Named (eq_of_some e) λ key j found. cc

pub with_primitives-Named : (b : TypeScopeBuilder) → with_primitives ≡ some b → Named b
unfolding with_primitives
with_primitives-Named =
    add_primitives-Named primitive_type_names (empty_at (incremented default_id))
      (empty_at-Named (incremented default_id))
