-- ===== src/Identify/Names/Items/Fresh.antt =====
-- src/identify/names/item_namer.rs: the pass over the items leaves their type expressions as they
-- were, for src/identify/types/item_namer.rs.
use protosnirk.Prelude.{Bool, true, false, Option, none, some, List, [], ◌∷◌}
use protosnirk.Prelude.Yields.{Ever, Ever-bind, Ever-rest, Ever-then, Ever-pure}
use protosnirk.Ast.Index.{ScopedId}
use protosnirk.Ast.Identifier.{Identifier, TypeExpression}
use protosnirk.Ast.Item.{
  BlockFnDeclaration, Typedef, Item, SourceUnit, block_fn_declaration, typedef,
}
use protosnirk.Identify.Names.Items.{
  Names, Params, params_on, name_params, name_fn, fn_repeated, fn_on, visit_block_fn_decl,
  name_typedef, typedef_on, visit_typedef, visit_item, walk_unit, visit_unit,
}
use protosnirk.Identify.Types.Items.Runs.{IsFresh, FreshParams, FreshItems}

abbrev FreshItem : Item → Type 0
FreshItem (block_fn_declaration f) = FreshParams f.params × IsFresh f.ret_ty
FreshItem (typedef t) = IsFresh t.type_expr

fresh_cons : (i : Item) (rest : List Item) → FreshItem i → FreshItems rest → FreshItems (i ∷ rest)
fresh_cons (block_fn_declaration f) rest (ps, ret) fresh = (ps, ret, fresh)
fresh_cons (typedef t) rest ty fresh = (ty, fresh)

fresh_split : (i : Item) (rest : List Item) → FreshItems (i ∷ rest) → FreshItem i × FreshItems rest
fresh_split (block_fn_declaration f) rest (ps, ret, fresh) = ((ps, ret), fresh)
fresh_split (typedef t) rest (ty, fresh) = (ty, fresh)

abbrev FreshFn : BlockFnDeclaration → Type 0
FreshFn f = FreshParams f.params × IsFresh f.ret_ty

params_on-FreshParams :
    (fine : Bool) (param : Identifier) (ty : TypeExpression) (rest : Params)
    (visit : Names (Bool × Params))
    → IsFresh ty
    → FreshParams rest
    → Ever (λ r. FreshParams r.1) visit
    → Ever (λ r. FreshParams r.1) (params_on fine (param, ty) rest visit)
unfolding params_on
params_on-FreshParams false param ty rest visit h hs ok = Ever-pure _ (h, hs)
params_on-FreshParams true param ty rest visit h hs ok = Ever-bind ok λ r p. Ever-pure _ (h, p)

name_params-FreshParams :
    (f : BlockFnDeclaration) (ps : Params)
    → FreshParams ps
    → Ever (λ r. FreshParams r.1) (name_params f ps)
unfolding name_params
name_params-FreshParams f [] fresh = Ever-pure _ tt
name_params-FreshParams f ((param, ty) ∷ rest) (h, hs) = Ever-rest _ λ found. Ever-rest _ λ r.
    params_on-FreshParams r.0 r.1 ty rest (name_params f rest) h hs
      (name_params-FreshParams f rest hs)

name_fn-FreshFn : (f : BlockFnDeclaration) → FreshFn f → Ever FreshFn (name_fn f)
unfolding name_fn
name_fn-FreshFn f (ps, ret) = Ever-rest _ λ id. Ever-then _ (
    Ever-then _ (
      Ever-then _ (
        Ever-then _ (
          Ever-bind (name_params-FreshParams f f.params ps)
            λ r p. Ever-then _ (Ever-pure _ (p, ret))))))

fn_on-FreshFn :
    (o : Option ScopedId) (f : BlockFnDeclaration) → FreshFn f → Ever FreshFn (fn_on o f)
unfolding fn_on fn_repeated
fn_on-FreshFn none f fresh = name_fn-FreshFn f fresh
fn_on-FreshFn (some id) f fresh =
    Ever-rest _ λ known. Ever-rest _ λ previous. Ever-then _ (Ever-pure _ fresh)

typedef_on-IsFresh :
    (o : Option ScopedId) (t : Typedef)
    → IsFresh t.type_expr
    → Ever (λ t'. IsFresh t'.type_expr) (typedef_on o t)
unfolding typedef_on name_typedef
typedef_on-IsFresh none t fresh = Ever-rest _ λ id. Ever-then _ (Ever-then _ (Ever-pure _ fresh))
typedef_on-IsFresh (some id) t fresh = Ever-then _ (Ever-pure _ fresh)

visit_item-FreshItem : (i : Item) → FreshItem i → Ever FreshItem (visit_item i)
unfolding visit_item visit_block_fn_decl visit_typedef
visit_item-FreshItem (block_fn_declaration f) fresh =
    Ever-bind {P = FreshFn} (Ever-rest _ λ found. fn_on-FreshFn found f fresh) λ f' p. Ever-pure _ p
visit_item-FreshItem (typedef t) fresh =
    Ever-bind {P = λ t'. IsFresh t'.type_expr}
      (Ever-rest _ λ found. typedef_on-IsFresh found t fresh) λ t' p. Ever-pure _ p

walk_unit-FreshItems : (is : List Item) → FreshItems is → Ever FreshItems (walk_unit is)
unfolding walk_unit
walk_unit-FreshItems [] fresh = Ever-pure _ tt
walk_unit-FreshItems (i ∷ rest) fresh =
    let (h, hs) = fresh_split i rest fresh in
    Ever-bind (visit_item-FreshItem i h) λ i' p.
      Ever-bind (walk_unit-FreshItems rest hs) λ rest' q. Ever-pure _ (fresh_cons i' rest' p q)

pub visit_unit-FreshItems :
    (u : SourceUnit) → FreshItems u.items → Ever (λ v. FreshItems v.items) (visit_unit u)
unfolding visit_unit
visit_unit-FreshItems u fresh =
    Ever-then _
      (Ever-bind (walk_unit-FreshItems u.items fresh) λ items p. Ever-then _ (Ever-pure _ p))
