-- ===== src/Identify/Typographer/Items.antt =====
-- src/identify/types/item_typographer.rs.
use protosnirk.Prelude.{Bool, true, false, Option, none, some, List, [], ◌∷◌, ◌||◌, if◌then◌else◌}
use protosnirk.Prelude.States.{pure, gets, ◌>>=◌, ◌>>◌}
use protosnirk.Ast.Index.{ScopedId, is_default, scoped_id_has_eq}
use protosnirk.Ast.Identifier.{Identifier, TypeExpression, type_id}
use protosnirk.Ast.Item.{
  BlockFnDeclaration, Typedef, Item, SourceUnit, block_fn_declaration, typedef,
}
use protosnirk.Identify.ConcreteType.{ConcreteType}
use protosnirk.Identify.Petgraph.{Petgraph}
use protosnirk.Identify.TypeScope
use protosnirk.Identify.TypeGraph.{
  TypeNode, InferenceSource, fn_parameter, typedef_alias, add_type, add_variable,
}
use protosnirk.Identify.Typographer.State.{Typing, graphs, infer}

module _ {G : Type 0} ⦃p : Petgraph G TypeNode InferenceSource⦄ where
  -- An edge from a variable to the type that it is declared with.
  param_edge : Identifier → ScopedId → ScopedId → Option ConcreteType → Typing G Bool
  param_edge f param ty none = pure false
  param_edge f param ty (some concrete) = do
    ty_ix ← graphs (add_type ty)
    var_ix ← graphs (add_variable param)
    infer var_ix ty_ix (fn_parameter f)
    pure true

  -- One turn of the loop over the parameters; `false` is a return from the visit.
  visit_param : Identifier → Identifier → TypeExpression → Typing G Bool
  unfolding param_edge
  visit_param f param ty = do
    concrete ← gets (λ s. TypeScope.get_type (type_id ty) s.builder)
    if is_default (type_id ty) || is_default param.id
        then pure false
        else param_edge f param.id (type_id ty) concrete

  unfoldable pub visit_params :
      Identifier → List (Identifier × TypeExpression) → Typing G (Unit {0})
  unfolding visit_param
  visit_params f [] = pure tt
  visit_params f ((param, ty) ∷ rest) = do
    fine ← visit_param f param ty
    elim fine [ false ↦ pure tt | true ↦ visit_params f rest ]

  typed_fn : Option ConcreteType → BlockFnDeclaration → Typing G (Unit {0})
  typed_fn none f = pure tt
  typed_fn (some ty) f = do graphs (add_type f.ident.id); visit_params f.ident f.params

  unfoldable pub visit_block_fn_decl : BlockFnDeclaration → Typing G (Unit {0})
  unfolding typed_fn
  visit_block_fn_decl f = do
    known ← gets (λ s. TypeScope.get_type f.ident.id s.builder)
    if is_default f.ident.id then pure tt else typed_fn known f

  typed_alias : Option ConcreteType → Typedef → Typing G (Unit {0})
  typed_alias none t = pure tt
  typed_alias (some ty) t = do
    ty_ix ← graphs (add_type (type_id t.type_expr))
    typedef_ix ← graphs (add_variable t.alias_ident.id)
    infer typedef_ix ty_ix (typedef_alias t.alias_ident)

  unfoldable pub visit_typedef : Typedef → Typing G (Unit {0})
  unfolding typed_alias
  visit_typedef t = do
    known ← gets (λ s. TypeScope.get_type (type_id t.type_expr) s.builder)
    if is_default t.alias_ident.id then pure tt else typed_alias known t

  -- `visit_item`
  unfoldable pub visit_item : Item → Typing G (Unit {0})
  visit_item (block_fn_declaration f) = visit_block_fn_decl f
  visit_item (typedef t) = visit_typedef t

  -- `walk_unit`
  unfoldable pub walk_unit : List Item → Typing G (Unit {0})
  walk_unit [] = pure tt
  walk_unit (i ∷ rest) = do visit_item i; walk_unit rest

  abbrev pub visit_unit : SourceUnit → Typing G (Unit {0})
  visit_unit u = walk_unit u.items
