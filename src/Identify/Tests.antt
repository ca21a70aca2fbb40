-- ===== src/Identify/Tests.antt =====
-- src/identify: scopes and sources at work.
use protosnirk.Prelude.{
  ◌≡◌, refl, true, none, some, [], ◌∷◌, Text, codes, ℕ, List, text_eq, if◌then◌else◌,
}
use protosnirk.Prelude.Maps.{Map, text_has_eq, lookup, insert}
use protosnirk.Ast.Index.{ScopedId, default_id, same_id}
use protosnirk.Identify.ScopeBuilder.{
  ScopeBuilder, new_scope, pop, get, info_for, in_scope, define_local, define_global, search_scopes,
}
use protosnirk.Identify.ScopeBuilder.Laws.{
  get-define_local, get-define_global, get-pop-Within, in_scope_lem, Within, here, defines, block,
}
use protosnirk.Identify.OriginManager
use protosnirk.Identify.OriginManager.{begin_block, end_block, add_source, pop_source}
use protosnirk.Identify.OriginManager.Laws.{Uses, Uses_lem}

abbrev id_of : ℕ → ScopedId
id_of n = record { indices = 0 ∷ n ∷ [] }

abbrev x : Text
x = codes "x"

abbrev y : Text
y = codes "y"

abbrev two_scopes : ScopeBuilder Text ℕ
two_scopes = record { scopes = ((x, id_of 1) ∷ []) ∷ [] ∷ []; defined = (id_of 1, 7) ∷ [] }

abbrev with_local : ScopeBuilder Text ℕ
with_local = record {
  scopes = ((x, id_of 1) ∷ (y, id_of 2) ∷ []) ∷ [] ∷ [];
  defined = (id_of 1, 7) ∷ (id_of 2, 8) ∷ [];
}

abbrev with_global : ScopeBuilder Text ℕ
with_global = record {
  scopes = ((x, id_of 1) ∷ []) ∷ ((y, id_of 2) ∷ []) ∷ [];
  defined = (id_of 1, 7) ∷ (id_of 2, 8) ∷ [];
}

define_y : define_local y (id_of 2) 8 two_scopes ≡ some with_local
unfolding define_local insert lookup text_eq same_id
define_y = refl

define_y_global : define_global y (id_of 2) 8 two_scopes ≡ some with_global
unfolding define_global insert lookup text_eq same_id
define_y_global = refl

y_unbound : get y two_scopes ≡ none
unfolding get search_scopes lookup text_eq
y_unbound = refl

get-define_local_example :
    (get x with_local ≡ (if text_eq y x then some (id_of 2) else get x two_scopes))
    × (info_for (id_of 2) with_local
        ≡ (if same_id (id_of 2) (id_of 2) then some 8 else info_for (id_of 2) two_scopes))
get-define_local_example = get-define_local y x (id_of 2) (id_of 2) 8 two_scopes with_local define_y

get-define_global_example :
    (get y with_global ≡ (if text_eq y y then some (id_of 2) else get y two_scopes))
    × (in_scope y 1 with_global
        ≡ (if text_eq y y then some (some (id_of 2)) else in_scope y 1 two_scopes))
get-define_global_example =
    get-define_global y y (id_of 2) 8 two_scopes with_global define_y_global y_unbound

abbrev outer_scopes : List (Map Text ScopedId)
outer_scopes = ((x, id_of 1) ∷ []) ∷ []

abbrev inner : ScopeBuilder Text ℕ
inner = record {
  scopes = ((x, id_of 3) ∷ []) ∷ ((x, id_of 1) ∷ []) ∷ [] ∷ [];
  defined = (id_of 1, 7) ∷ (id_of 3, 9) ∷ [];
}

shadow_x : define_local x (id_of 3) 9 (new_scope two_scopes) ≡ some inner
unfolding define_local insert lookup text_eq same_id
shadow_x = refl

inner-Within : Within (new_scope two_scopes) inner
inner-Within = block here (defines x (id_of 3) 9 shadow_x here)

get-pop-Within_example : get x (pop inner) ≡ get x two_scopes
get-pop-Within_example = get-pop-Within x inner-Within

-- In the outer one of two scopes.
in_scope_lem_example :
    (in_scope x 1 (record two_scopes { scopes = [] ∷ outer_scopes })
      ≡ some (get x (record two_scopes { scopes = outer_scopes })))
    × (in_scope x 5 (record two_scopes { scopes = [] ∷ outer_scopes }) ≡ none)
in_scope_lem_example = in_scope_lem x ([] ∷ []) outer_scopes two_scopes.defined 2

Uses_lem_example :
    (pop_source (add_source default_id OriginManager.new) ≡ (some default_id, OriginManager.new))
    × (end_block (begin_block OriginManager.new) ≡ (true, OriginManager.new))
Uses_lem_example =
    Uses_lem default_id {m = OriginManager.new}
      (Uses.source (id_of 4) (Uses.block Uses.here Uses.here) Uses.here) Uses.here
