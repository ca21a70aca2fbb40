-- ===== src/Identify/Types/Items.antt =====
-- src/identify/types/item_namer.rs: `ItemTypeIdentifier`.
pub mod Primitives
pub mod Runs
use protosnirk.Prelude.{Bool, true, false, Option, none, some, List, [], ◌∷◌, Text, if◌then◌else◌}
use protosnirk.Prelude.Maps.{text_has_eq}
use protosnirk.Prelude.States.{pure, gets, modify, expect, total, ◌>>=◌, ◌>>◌}
use protosnirk.Ast.Index.{ScopedId, is_default, same_id, scoped_id_has_eq}
use protosnirk.Ast.Identifier.{Identifier, TypeExpression, type_id, name}
use protosnirk.Ast.Item.{
  BlockFnDeclaration, Typedef, Item, SourceUnit, block_fn_declaration, typedef,
}
use protosnirk.Check.Errors.{circular_typedef}
use protosnirk.Identify.ConcreteType.{ConcreteType, FnParams, fn_type, no_params, fn_param}
use protosnirk.Identify.TypeScope.{get_type, add_type, add_named_type}
use protosnirk.Identify.Types.Naming.{TypeIdentifier, Types, complain, visit_type_expr}

abbrev pub Params : Type 0
Params = List (Identifier × TypeExpression)

-- The type behind a type expression, which the builder must know.
unfoldable pub type_of : TypeExpression → Types ConcreteType
type_of ty = do known ← gets (λ s. get_type (type_id ty) s.builder); expect known

abbrev pub add_param : Text → ConcreteType → Option FnParams → Option FnParams
add_param x ty none = none
add_param x ty (some params) = some (fn_param x ty params)

-- The rest of the loop over the parameters, on whether the type of one is unknown.
typed_params :
    Bool
    → Identifier
    → TypeExpression
    → Params
    → Types (Params × Option FnParams)
    → Types (Params × Option FnParams)
typed_params true param ty rest visit = pure ((param, ty) ∷ rest, none)
typed_params false param ty rest visit = do
  concrete ← type_of ty
  (rest', types) ← visit
  pure ((param, ty) ∷ rest', add_param (name param) concrete types)

-- The loop over the parameters; `none` stands for its early return.
unfoldable pub identify_params : Params → Types (Params × Option FnParams)
unfolding typed_params
identify_params [] = pure ([], some no_params)
identify_params ((param, ty) ∷ rest) = do
  ty' ← total (visit_type_expr ty)
  typed_params (is_default (type_id ty')) param ty' rest (identify_params rest)

-- The end of `visit_block_fn_decl`: the type of the function.
unfoldable pub add_fn_type : ScopedId → FnParams → TypeExpression → Types (Unit {0})
add_fn_type id types ret_ty =
    if is_default (type_id ret_ty)
    then pure tt
    else (type_of ret_ty >>= λ ret.
        modify (λ s. record s { builder = add_type id (fn_type types ret) s.builder }))

identify_return : BlockFnDeclaration → Params → Option FnParams → Types BlockFnDeclaration
identify_return f params none = pure (record f { params = params })
identify_return f params (some types) = do
  ret_ty ← total (visit_type_expr f.ret_ty)
  add_fn_type f.ident.id types ret_ty
  pure (record f { params = params; ret_ty = ret_ty })

-- `visit_block_fn_decl`
unfoldable pub visit_block_fn_decl : BlockFnDeclaration → Types BlockFnDeclaration
unfolding identify_return
visit_block_fn_decl f =
    if is_default f.ident.id
    then pure f
    else (identify_params f.params >>= λ (params, types). identify_return f params types)

-- The error of a type that is its own; the visit goes on behind it.
circular : Typedef → TypeExpression → Types (Unit {0})
circular t ty =
    if same_id (type_id ty) t.alias_ident.id
    then modify (complain (t.span ∷ []) (circular_typedef (name t.alias_ident)))
    else pure tt

alias_type : Typedef → TypeExpression → Types (Unit {0})
unfolding circular
alias_type t ty = do
  circular t ty
  concrete ← type_of ty
  modify λ s. record s {
    builder = add_named_type (name t.alias_ident) t.alias_ident.id concrete s.builder;
  }

add_alias : Typedef → TypeExpression → Types (Unit {0})
unfolding alias_type
add_alias t ty = if is_default (type_id ty) then pure tt else alias_type t ty

identify_alias : Typedef → Types Typedef
unfolding add_alias
identify_alias t = do
  ty ← total (visit_type_expr t.type_expr)
  add_alias t ty
  pure (record t { type_expr = ty })

-- `visit_typedef`
unfoldable pub visit_typedef : Typedef → Types Typedef
unfolding identify_alias
visit_typedef t = if is_default t.alias_ident.id then pure t else identify_alias t

-- `visit_item`
unfoldable pub visit_item : Item → Types Item
visit_item (block_fn_declaration f) = do f' ← visit_block_fn_decl f; pure (block_fn_declaration f')
visit_item (typedef t) = do t' ← visit_typedef t; pure (typedef t')

-- `walk_unit`
unfoldable pub walk_unit : List Item → Types (List Item)
walk_unit [] = pure []
walk_unit (i ∷ rest) = do i' ← visit_item i; rest' ← walk_unit rest; pure (i' ∷ rest')

-- `visit_unit`
unfoldable pub visit_unit : SourceUnit → Types SourceUnit
visit_unit u = do items ← walk_unit u.items; pure (record u { items = items })
