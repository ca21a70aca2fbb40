-- ===== src/Identify/Types/Items/Runs.antt =====
-- src/identify/types/item_namer.rs: the pass over the types of items returns.
use protosnirk.Prelude.{
  ◌≡◌, refl, sym, ap, ◌∙◌, Bool, true, false, Option, none, some, List, [], ◌∷◌, Text,
  if◌then◌else◌, text_eq, eq_of_some,
}
use protosnirk.Prelude.Maps.{lookup, insert, lookup-insert, Map, text_has_eq, beq_refl}
use protosnirk.Prelude.States.{
  Gives, gives, Gives-after, pure, gets, modify, expect, total, ◌>>=◌, ◌>>◌,
}
use protosnirk.Prelude.Runs.{IsFrame, Runs, Runs-pure, Runs-modify, Runs-bind, Runs-if}
use protosnirk.Ast.Index.{ScopedId, is_default, same_id, scoped_id_has_eq}
use protosnirk.Ast.Identifier.{Identifier, TypeExpression, named, type_id, name, set_id}
use protosnirk.Ast.Item.{
  BlockFnDeclaration, Typedef, Item, SourceUnit, block_fn_declaration, typedef,
}
use protosnirk.Identify.ConcreteType.{ConcreteType, FnParams, fn_type}
use protosnirk.Identify.TypeScope.{
  TypeScopeBuilder, get_type, named_type_id, add_type, add_named_type,
}
use protosnirk.Identify.Types.Naming.{TypeIdentifier, Types, visit_type_expr, named_on, complain}
use protosnirk.Check.Errors.{circular_typedef}
use protosnirk.Identify.Types.Items.{
  Params, type_of, typed_params, identify_params, add_fn_type, identify_return, visit_block_fn_decl,
  circular, alias_type, add_alias, identify_alias, visit_typedef, visit_item, walk_unit, visit_unit,
}

-- Every name has an id with a type.
abbrev pub Named : TypeScopeBuilder → Type 0
Named b =
    (key : Text) (id : ScopedId)
    → named_type_id key b ≡ some id
    → (ty : ConcreteType) × (get_type id b ≡ some ty)

-- A type expression that has not been identified.
abbrev pub IsFresh : TypeExpression → Type 0
IsFresh ty = is_default (type_id ty) ≡ true

-- The type expressions of the items of a unit have not been identified.
abbrev pub FreshParams : Params → Type 0
FreshParams [] = Unit
FreshParams ((param, ty) ∷ rest) = IsFresh ty × FreshParams rest

abbrev pub FreshItems : List Item → Type 0
FreshItems [] = Unit
FreshItems (block_fn_declaration f ∷ rest) =
    FreshParams f.params × IsFresh f.ret_ty × FreshItems rest
FreshItems (typedef t ∷ rest) = IsFresh t.type_expr × FreshItems rest

abbrev pub IsReady : TypeIdentifier → Type 0
IsReady s = Named s.builder

instance abbrev ready_frame : IsFrame IsReady (λ s t. IsReady t)
ready_frame = record { stays = λ s p. p; joins = λ s t u p q. q; goes_on = λ s t p. p }

abbrev Sound {ℓ} : {A : Type ℓ} → (TypeIdentifier → Option (A × TypeIdentifier)) → Type ℓ
Sound m = Runs IsReady (λ s t. IsReady t) m

from {ℓ} :
    {A : Type ℓ} {m : TypeIdentifier → Option (A × TypeIdentifier)}
    → Sound m
    → (s : TypeIdentifier) → Named s.builder
    → Gives IsReady (m s)
from ok s known = ok.at s known

lookup-insert_new :
    (id j : ScopedId) (ty : ConcreteType) (m : Map ScopedId ConcreteType)
    → (c : ConcreteType) × (lookup j m ≡ some c)
    → (c : ConcreteType) × (lookup j (insert id ty m) ≡ some c)
lookup-insert_new id j ty m (c, known) =
    let (c', p) = go (same_id id j) in (c', lookup-insert id j ty m ∙ p)
  where
    go : (b : Bool) → (c' : ConcreteType) × ((if b then some ty else lookup j m) ≡ some c')
    go true = (ty, refl)
    go false = (c, known)

insert_self :
    (id : ScopedId) (ty : ConcreteType) (m : Map ScopedId ConcreteType)
    → lookup id (insert id ty m) ≡ some ty
insert_self id ty m = rw (lookup-insert id id ty m, beq_refl id)

Named-add_type :
    (id : ScopedId) (ty : ConcreteType) (b : TypeScopeBuilder) → Named b → Named (add_type id ty b)
Named-add_type id ty b known key j found = lookup-insert_new id j ty b.types (known key j found)

pub Named-add_named_type :
    (x : Text) (id : ScopedId) (ty : ConcreteType) (b : TypeScopeBuilder)
    → Named b
    → Named (add_named_type x id ty b)
Named-add_named_type x id ty b known key j found =
    go (text_eq x key) (sym (lookup-insert x key id b.names) ∙ found)
  where
    go :
        (c : Bool)
        → (if c then some id else lookup key b.names) ≡ some j
        → (c : ConcreteType) × (lookup j (insert id ty b.types) ≡ some c)
    go true same = (
      ty,
      ap (λ i. lookup i (insert id ty b.types)) (sym (eq_of_some same)) ∙ insert_self id ty b.types,
    )
    go false old = lookup-insert_new id j ty b.types (known key j old)

-- The type behind an identified type expression.
abbrev Typed : TypeIdentifier → TypeExpression → Type 0
Typed s ty =
    is_default (type_id ty) ≡ false
    → (c : ConcreteType) × (get_type (type_id ty) s.builder ≡ some c)

-- The visit of a fresh type expression, and what follows it.
after_type :
    {B : Type 0} (ty : TypeExpression) (f : TypeExpression → Types B) (s : TypeIdentifier)
    → IsFresh ty
    → Named s.builder
    → ((ty' : TypeExpression) (t : TypeIdentifier)
        → Named t.builder
        → Typed t ty'
        → Gives IsReady (f ty' t))
    → Gives IsReady ((total (visit_type_expr ty) >>= f) s)
unfolding ◌>>=◌ total visit_type_expr named_on
after_type (named i) f s fresh known k = go (named_type_id (name i) s.builder) refl
  where
    go :
        (o : Option ScopedId)
        → named_type_id (name i) s.builder ≡ o
        → Gives IsReady (f (named_on o i s).0 (named_on o i s).1)
    go none e = k (named i) _ known (λ no. cc)
    go (some id) e = k (named (set_id id i)) s known (λ no. known (name i) id e)

type_of-returns :
    (ty : TypeExpression) (t : TypeIdentifier)
    → Named t.builder
    → Typed t ty
    → is_default (type_id ty) ≡ false
    → (c : ConcreteType) × (type_of ty t ≡ some (c, t))
unfolding type_of ◌>>=◌ gets expect pure
type_of-returns ty t known typed e = let (c, p) = typed e in (c, rw p refl)

-- The rest of a visit, at a type whose id is known.
known_type :
    {B : Type 0} (ty : TypeExpression) (f : ConcreteType → Types B) (t : TypeIdentifier)
    → Named t.builder
    → Typed t ty
    → is_default (type_id ty) ≡ false
    → ((c : ConcreteType) → Gives IsReady (f c t))
    → Gives IsReady ((type_of ty >>= f) t)
unfolding ◌>>=◌
known_type ty f t known typed e k = let (c, p) = type_of-returns ty t known typed e in rw p (k c)

one :
    (b : Bool) (param : Identifier) (ty : TypeExpression) (rest : Params)
    (visit : Types (Params × Option FnParams)) (t : TypeIdentifier)
    → is_default (type_id ty) ≡ b
    → Named t.builder
    → Typed t ty
    → Sound visit
    → Gives IsReady (typed_params b param ty rest visit t)
unfolding typed_params
one true param ty rest visit t e known typed ok = from (Runs-pure _) t known
one false param ty rest visit t e known typed ok =
    known_type ty _ t known typed e λ c. from (Runs-bind _ _ ok λ r. Runs-pure _) t known

visits_params : (ps : Params) → FreshParams ps → Sound (identify_params ps)
unfolding identify_params
visits_params [] fresh = Runs-pure _
visits_params ((param, ty) ∷ rest) (fresh, fresh_rest) = record {
  at = λ s known. after_type ty _ s fresh known λ ty' t known' typed.
      one (is_default (type_id ty')) param ty' rest (identify_params rest) t refl known' typed
        (visits_params rest fresh_rest);
}

add_fn_type-returns :
    (id : ScopedId) (types : FnParams) (ty : TypeExpression) (t : TypeIdentifier)
    → Named t.builder
    → Typed t ty
    → Gives IsReady (add_fn_type id types ty t)
unfolding add_fn_type
add_fn_type-returns id types ty t known typed = go (is_default (type_id ty)) refl
  where
    go :
        (b : Bool)
        → is_default (type_id ty) ≡ b
        → Gives IsReady (
            (if b
                then pure tt
                else (type_of ty >>= λ ret.
                    modify (λ s. record s { builder = add_type id (fn_type types ret) s.builder })))
              t)
    go true e = from (Runs-pure tt) t known
    go false e = known_type ty _ t known typed e λ c.
        from (Runs-modify _ λ s known'. Named-add_type id (fn_type types c) s.builder known') t
          known

returns_type :
    (f : BlockFnDeclaration) (params : Params) (types : Option FnParams)
    → IsFresh f.ret_ty
    → Sound (identify_return f params types)
unfolding identify_return ◌>>◌ pure
returns_type f params none fresh = Runs-pure _
returns_type f params (some types) fresh = record {
  at = λ s known. after_type f.ret_ty _ s fresh known λ ty t known' typed.
      Gives-after IsReady IsReady (add_fn_type-returns f.ident.id types ty t known' typed)
        λ _ u known''. gives _ u known'';
}

Sound-fn :
    (f : BlockFnDeclaration)
    → FreshParams f.params
    → IsFresh f.ret_ty
    → Sound (visit_block_fn_decl f)
unfolding visit_block_fn_decl
Sound-fn f fresh fresh_ret =
    Runs-if (is_default f.ident.id) _ _ (Runs-pure _)
      (Runs-bind _ _ (visits_params f.params fresh) λ r. returns_type f r.0 r.1 fresh_ret)

-- The type of an alias, behind the error of a circular one.
alias :
    (t : Typedef) (ty : TypeExpression) (s : TypeIdentifier)
    → Named s.builder
    → Typed s ty
    → is_default (type_id ty) ≡ false
    → Gives IsReady (alias_type t ty s)
unfolding alias_type circular ◌>>◌ ◌>>=◌ modify pure
alias t ty s known typed e = go (same_id (type_id ty) t.alias_ident.id)
  where
    add : ConcreteType → Types (Unit {0})
    add c =
        modify λ u. record u {
          builder = add_named_type (name t.alias_ident) t.alias_ident.id c u.builder;
        }

    rest : Types (Unit {0})
    rest = type_of ty >>= add

    at_end : (u : TypeIdentifier) → Named u.builder → Typed u ty → Gives IsReady (rest u)
    at_end u known' typed' = known_type ty add u known' typed' e λ c.
        gives tt _ (Named-add_named_type (name t.alias_ident) t.alias_ident.id c u.builder known')

    go :
        (b : Bool)
        → Gives IsReady (
            ((if b
                  then modify (complain (t.span ∷ []) (circular_typedef (name t.alias_ident)))
                  else pure tt)
                >> rest)
              s)
    go true = at_end (complain (t.span ∷ []) (circular_typedef (name t.alias_ident)) s) known typed
    go false = at_end s known typed

Sound-typedef : (t : Typedef) → IsFresh t.type_expr → Sound (visit_typedef t)
unfolding visit_typedef identify_alias add_alias ◌>>◌ pure
Sound-typedef t fresh = Runs-if (is_default t.alias_ident.id) _ _ (Runs-pure _) record {
  at = λ s known. after_type t.type_expr _ s fresh known λ ty u known' typed.
      Gives-after IsReady IsReady (go (is_default (type_id ty)) ty u known' typed refl)
        λ _ v known''. gives _ v known'';
}
  where
    go :
        (b : Bool) (ty : TypeExpression) (u : TypeIdentifier)
        → Named u.builder
        → Typed u ty
        → is_default (type_id ty) ≡ b
        → Gives IsReady ((if b then pure tt else alias_type t ty) u)
    go true ty u known typed e = from (Runs-pure tt) u known
    go false ty u known typed e = alias t ty u known typed e

Sound-walk_unit : (is : List Item) → FreshItems is → Sound (walk_unit is)
unfolding walk_unit visit_item
Sound-walk_unit [] fresh = Runs-pure _
Sound-walk_unit (block_fn_declaration f ∷ rest) (ps, ret, fresh) =
    Runs-bind _ _ (Runs-bind _ _ (Sound-fn f ps ret) λ f'. Runs-pure _)
      λ i'. Runs-bind _ _ (Sound-walk_unit rest fresh) λ rest'. Runs-pure _
Sound-walk_unit (typedef t ∷ rest) (ty, fresh) =
    Runs-bind _ _ (Runs-bind _ _ (Sound-typedef t ty) λ t'. Runs-pure _)
      λ i'. Runs-bind _ _ (Sound-walk_unit rest fresh) λ rest'. Runs-pure _

-- Where every named type has an id with a type and the type expressions of the items have not been
-- identified yet, the pass over the types of items returns: the types that it expects to find are
-- there. Every named type still has an id with a type behind it.
pub type_items-returns :
    (u : SourceUnit) (s : TypeIdentifier)
    → Named s.builder
    → FreshItems u.items
    → Gives IsReady (visit_unit u s)
unfolding visit_unit
type_items-returns u s known fresh =
    from (Runs-bind _ _ (Sound-walk_unit u.items fresh) λ items. Runs-pure _) s known
