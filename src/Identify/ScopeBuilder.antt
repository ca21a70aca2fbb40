-- ===== src/Identify/ScopeBuilder.antt =====
-- src/identify/scope_builder.rs: the stack of scopes, its top first. `none` is the panic of an access
-- out of bounds.
pub mod Laws
pub mod Known
use protosnirk.Prelude.{
  ℕ, zero, suc, ◌-◌, Bool, true, false, Option, none, some, List, [], ◌∷◌, ◌++◌, length, leb,
  if◌then◌else◌,
}
use protosnirk.Prelude.Maps.{Eq, Map, lookup, insert}
use protosnirk.Ast.Index.{ScopedId, scoped_id_has_eq}

abbrev pub or_else {ℓ} : {A : Type ℓ} → Option A → Option A → Option A
or_else none y = y
or_else (some x) y = some x

abbrev drop {ℓ} : {A : Type ℓ} → ℕ → List A → List A
drop zero xs = xs
drop (suc n) [] = []
drop (suc n) (x ∷ xs) = drop n xs

abbrev under {ℓ} : {A : Type ℓ} → A → Option (List A) → Option (List A)
under x none = none
under x (some xs) = some (x ∷ xs)

pub record ScopeBuilder (K I : Type 0) : Type 0 where
  pub scopes : List (Map K ScopedId)
  pub defined : Map ScopedId I

module _ {K : Type 0} where
  abbrev pub below : List (Map K ScopedId) → List (Map K ScopedId)
  below [] = []
  below (m ∷ ms) = ms

module _ {K : Type 0} ⦃e : Eq K⦄ where
  insert_top : K → ScopedId → List (Map K ScopedId) → Option (List (Map K ScopedId))
  insert_top key value [] = none
  insert_top key value (m ∷ ms) = some (insert key value m ∷ ms)

  -- `self.scopes[0].insert(key, value)`: the outermost scope.
  insert_bottom : K → ScopedId → List (Map K ScopedId) → Option (List (Map K ScopedId))
  insert_bottom key value [] = none
  insert_bottom key value (m ∷ []) = some (insert key value m ∷ [])
  insert_bottom key value (m ∷ n ∷ ms) = under m (insert_bottom key value (n ∷ ms))

  -- The search of `get` and `in_scope`, from the innermost of some scopes outwards.
  unfoldable pub search_scopes : K → List (Map K ScopedId) → Option ScopedId
  search_scopes key [] = none
  search_scopes key (m ∷ ms) = or_else (lookup key m) (search_scopes key ms)

  -- The outer `none` is the panic.
  local_in : K → List (Map K ScopedId) → Option (Option ScopedId)
  local_in key [] = none
  local_in key (m ∷ ms) = some (lookup key m)

module _ {K I : Type 0} where
  -- `ScopeBuilder::new`
  abbrev pub new : ScopeBuilder K I
  new = record { scopes = []; defined = [] }

  abbrev pub new_scope : ScopeBuilder K I → ScopeBuilder K I
  new_scope b = record b { scopes = [] ∷ b.scopes }

  -- `pop`, without the scope that it returns.
  abbrev pub pop : ScopeBuilder K I → ScopeBuilder K I
  pop b = record b { scopes = below b.scopes }

module _ {K I : Type 0} where
  on_scopes : Option (List (Map K ScopedId)) → Map ScopedId I → Option (ScopeBuilder K I)
  on_scopes none d = none
  on_scopes (some ms) d = some (record { scopes = ms; defined = d })

module _ {K I : Type 0} ⦃e : Eq K⦄ where
  unfoldable pub define_local : K → ScopedId → I → ScopeBuilder K I → Option (ScopeBuilder K I)
  unfolding insert_top on_scopes
  define_local key value info b =
      on_scopes (insert_top key value b.scopes) (insert value info b.defined)

  unfoldable pub define_global : K → ScopedId → I → ScopeBuilder K I → Option (ScopeBuilder K I)
  unfolding insert_bottom on_scopes
  define_global key value info b =
      on_scopes (insert_bottom key value b.scopes) (insert value info b.defined)

  unfoldable pub get : K → ScopeBuilder K I → Option ScopedId
  unfolding search_scopes
  get key b = search_scopes key b.scopes

  -- `contains_id`
  unfoldable pub contains_id : ScopedId → ScopeBuilder K I → Bool
  contains_id id b = elim (lookup id b.defined) [ none ↦ false | some i ↦ true ]

  unfoldable pub info_for : ScopedId → ScopeBuilder K I → Option I
  info_for id b = lookup id b.defined

  unfoldable pub local : K → ScopeBuilder K I → Option (Option ScopedId)
  unfolding local_in
  local key b = local_in key b.scopes

  -- `self.scopes[0..level].iter().rev()`, the slice's panic being `none`.
  unfoldable pub in_scope : K → ℕ → ScopeBuilder K I → Option (Option ScopedId)
  unfolding search_scopes
  in_scope key level b =
      if leb level (length b.scopes)
      then some (search_scopes key (drop (length b.scopes - level) b.scopes))
      else none
