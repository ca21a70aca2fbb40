-- ===== src/Identify/ScopeBuilder/Known.antt =====
-- src/identify/scope_builder.rs: every id in a scope has its information, so that looking it up
-- does not fail.
use protosnirk.Prelude.{
  suc, ◌≤◌, ◌≡◌, refl, sym, ap, ◌∙◌, Bool, true, false, Option, none, some, List, [], ◌∷◌, length,
  arith, if◌then◌else◌, eq_of_some,
}
use protosnirk.Prelude.Maps.{Map, lookup, insert, lookup-insert, beq_refl, Eq}
use protosnirk.Ast.Index.{ScopedId, same_id, scoped_id_has_eq}
use protosnirk.Identify.ScopeBuilder.{
  ScopeBuilder, get, info_for, define_local, define_global, search_scopes, below, insert_top,
  insert_bottom, on_scopes, under, or_else,
}

module _ {I : Type 0} where
  -- A new information forgets none of the others.
  insert-lookup :
      (d : Map ScopedId I) (id j : ScopedId) (info : I)
      → (i : I) × (lookup j d ≡ some i)
      → (i : I) × (lookup j (insert id info d) ≡ some i)
  insert-lookup d id j info (i, known) =
      let (i', p) = go (same_id id j) in (i', lookup-insert id j info d ∙ p)
    where
      go : (b : Bool) → (i' : I) × ((if b then some info else lookup j d) ≡ some i')
      go true = (info, refl)
      go false = (i, known)

  insert_self :
      (d : Map ScopedId I) (id : ScopedId) (info : I) → lookup id (insert id info d) ≡ some info
  insert_self d id info = rw (lookup-insert id id info d, beq_refl id)

module _ {K I : Type 0} ⦃e : Eq K⦄ where
  abbrev pub Known : Map ScopedId I → Map K ScopedId → Type 0
  Known d m = (key : K) (id : ScopedId) → lookup key m ≡ some id → (i : I) × (lookup id d ≡ some i)

  abbrev pub AllKnown : Map ScopedId I → List (Map K ScopedId) → Type 0
  AllKnown d [] = Unit
  AllKnown d (m ∷ ms) = Known d m × AllKnown d ms

  Known-insert :
      (d : Map ScopedId I) (m : Map K ScopedId) (id : ScopedId) (info : I)
      → Known d m
      → Known (insert id info d) m
  Known-insert d m id info known key j found = insert-lookup d id j info (known key j found)

  AllKnown-insert :
      (d : Map ScopedId I) (ms : List (Map K ScopedId)) (id : ScopedId) (info : I)
      → AllKnown d ms
      → AllKnown (insert id info d) ms
  AllKnown-insert d [] id info known = tt
  AllKnown-insert d (m ∷ ms) id info (known, rest) =
      (Known-insert d m id info known, AllKnown-insert d ms id info rest)

  -- A name that is bound to an id with its information.
  Known-bind :
      (d : Map ScopedId I) (m : Map K ScopedId) (key : K) (id : ScopedId) (info : I)
      → Known d m
      → Known (insert id info d) (insert key id m)
  Known-bind d m key id info known k j found =
      go (e.beq key k) (sym (lookup-insert key k id m) ∙ found)
    where
      go :
          (b : Bool)
          → (if b then some id else lookup k m) ≡ some j
          → (i : I) × (lookup j (insert id info d) ≡ some i)
      go true same = (
        info,
        ap (λ x. lookup x (insert id info d)) (sym (eq_of_some same)) ∙ insert_self d id info,
      )
      go false old = Known-insert d m id info known k j old

  -- `info_for` of an id that `get` found.
  search-AllKnown :
      (d : Map ScopedId I) (ms : List (Map K ScopedId)) (key : K) (id : ScopedId)
      → AllKnown d ms
      → search_scopes key ms ≡ some id
      → (i : I) × (lookup id d ≡ some i)
  unfolding search_scopes
  search-AllKnown d [] key id known found = cc
  search-AllKnown d (m ∷ ms) key id (known, rest) found =
      go (λ f. search-AllKnown d ms key id rest f) (lookup key m) refl found
    where
      go :
          (later : search_scopes key ms ≡ some id → (i : I) × (lookup id d ≡ some i))
          (o : Option ScopedId)
          → lookup key m ≡ o
          → or_else o (search_scopes key ms) ≡ some id
          → (i : I) × (lookup id d ≡ some i)
      go later none absent f = later f
      go later (some j) here f = known key id (here ∙ f)

  pub get-AllKnown :
      (key : K) (id : ScopedId) (b : ScopeBuilder K I)
      → AllKnown b.defined b.scopes
      → get key b ≡ some id
      → (i : I) × (info_for id b ≡ some i)
  unfolding get info_for
  get-AllKnown key id b known found = search-AllKnown b.defined b.scopes key id known found

  pub define_local-returns :
      (key : K) (id : ScopedId) (info : I) (b : ScopeBuilder K I)
      → AllKnown b.defined b.scopes
      → 1 ≤ length b.scopes
      → (b' : ScopeBuilder K I) × (define_local key id info b ≡ some b')
        × AllKnown b'.defined b'.scopes
        × (length b'.scopes ≡ length b.scopes)
        × (below b'.scopes ≡ below b.scopes)
  unfolding define_local insert_top on_scopes
  define_local-returns key id info b known h = go b.scopes known h
    where
      go :
          (ms : List (Map K ScopedId))
          → AllKnown b.defined ms
          → 1 ≤ length ms
          → (b' : ScopeBuilder K I) × (on_scopes (insert_top key id ms) (insert id info b.defined)
              ≡ some b')
            × AllKnown b'.defined b'.scopes
            × (length b'.scopes ≡ length ms)
            × (below b'.scopes ≡ below ms)
      go [] known h = absurd (omega (arith, h))
      go (m ∷ ms) (known, rest) h = (
        record { scopes = insert key id m ∷ ms; defined = insert id info b.defined },
        refl,
        (Known-bind b.defined m key id info known, AllKnown-insert b.defined ms id info rest),
        refl,
        refl,
      )

  insert_bottom-returns :
      (key : K) (id : ScopedId) (info : I) (d : Map ScopedId I) (ms : List (Map K ScopedId))
      → AllKnown d ms
      → 1 ≤ length ms
      → (ms' : List (Map K ScopedId)) × (insert_bottom key id ms ≡ some ms')
        × AllKnown (insert id info d) ms'
        × (length ms' ≡ length ms)
  unfolding insert_bottom
  insert_bottom-returns key id info d [] known h = absurd (omega (arith, h))
  insert_bottom-returns key id info d (m ∷ []) (known, rest) h =
      (insert key id m ∷ [], refl, (Known-bind d m key id info known, tt), refl)
  insert_bottom-returns key id info d (m ∷ n ∷ ms) (known, rest) h =
      let (ms', e, k, l) = insert_bottom-returns key id info d (n ∷ ms) rest (omega arith) in
      (m ∷ ms', ap (under m) e, (Known-insert d m id info known, k), ap suc l)

  pub define_global-returns :
      (key : K) (id : ScopedId) (info : I) (b : ScopeBuilder K I)
      → AllKnown b.defined b.scopes
      → 1 ≤ length b.scopes
      → (b' : ScopeBuilder K I) × (define_global key id info b ≡ some b')
        × AllKnown b'.defined b'.scopes
        × (length b'.scopes ≡ length b.scopes)
  unfolding define_global on_scopes
  define_global-returns key id info b known h =
      let (ms, e, k, l) = insert_bottom-returns key id info b.defined b.scopes known h in
      (
        record { scopes = ms; defined = insert id info b.defined },
        ap (λ o. on_scopes o (insert id info b.defined)) e,
        k,
        l,
      )

  pub AllKnown-below :
      (d : Map ScopedId I) (ms : List (Map K ScopedId)) → AllKnown d ms → AllKnown d (below ms)
  AllKnown-below d [] known = tt
  AllKnown-below d (m ∷ ms) (known, rest) = rest
