-- ===== src/Identify/ScopeBuilder/Laws.antt =====
-- src/identify/scope_builder.rs: what the scopes resolve a name to.
use protosnirk.Prelude.{
  ℕ, ◌+◌, ◌-◌, ◌≤◌, ◌≡◌, refl, ap, subst, ◌∙◌, ◌++◌, Bool, length-append, true, false, Option, none,
  some, List, [], ◌∷◌, length, leb, if◌then◌else◌, arith, eq_of_some, suc,
}
use protosnirk.Prelude.Maps.{Eq, Map, lookup, insert, lookup-insert}
use protosnirk.Ast.Index.{ScopedId, scoped_id_has_eq, same_id}
use protosnirk.Identify.ScopeBuilder.{
  ScopeBuilder, new_scope, pop, define_local, define_global, get, search_scopes, insert_top,
  insert_bottom, on_scopes, or_else, info_for, in_scope, below, drop, under,
}

drop-append : {A : Type 0} (xs ys : List A) → drop (length xs) (xs ++ ys) ≡ ys
drop-append [] ys = refl
drop-append (x ∷ xs) ys = drop-append xs ys

-- The outermost scope alone.
abbrev bottom : {A : Type 0} → List A → List A
bottom [] = []
bottom (x ∷ []) = x ∷ []
bottom (x ∷ y ∷ xs) = bottom (y ∷ xs)

bottom-cons : {A : Type 0} (x : A) (xs : List A) → 1 ≤ length xs → bottom (x ∷ xs) ≡ bottom xs
bottom-cons x [] h = absurd (omega (arith, h))
bottom-cons x (y ∷ xs) h = refl

drop-bottom : {A : Type 0} (xs : List A) → drop (length xs - 1) xs ≡ bottom xs
drop-bottom [] = refl
drop-bottom (x ∷ []) = refl
drop-bottom (x ∷ y ∷ xs) =
    let less : suc (suc (length xs)) - 1 ≡ suc (suc (length xs) - 1) = omega arith in
    rw less (drop-bottom (y ∷ xs))

or_else-none : {A : Type 0} (x y : Option A) → or_else x y ≡ none → (x ≡ none) × (y ≡ none)
or_else-none none y h = (refl, h)
or_else-none (some a) y h = cc

some-if :
    (b : Bool) (v : ScopedId) (o : Option ScopedId)
    → ◌≡◌ {A = Option (Option ScopedId)}
        (some (if b then some v else o))
        (if b then some (some v) else some o)
some-if true v o = refl
some-if false v o = refl

module _ {K : Type 0} ⦃e : Eq K⦄ where
  search_scopes-insert_bottom :
      (key j : K) (value : ScopedId) (ms ns : List (Map K ScopedId))
      → insert_bottom key value ms ≡ some ns
      → search_scopes key ms ≡ none
      → search_scopes j ns ≡ (if e.beq key j then some value else search_scopes j ms)
  unfolding search_scopes insert_bottom
  search_scopes-insert_bottom key j value [] ns p q = cc
  search_scopes-insert_bottom key j value (m ∷ []) ns p q =
      ground (arith, lookup-insert key j value m, e.beq_iff key j)
  search_scopes-insert_bottom key j value (m ∷ n ∷ ms) ns p q =
      go (insert_bottom key value (n ∷ ms)) refl
        (λ r h. search_scopes-insert_bottom key j value (n ∷ ms) r h unset.1)
    where
      unset : (lookup key m ≡ none) × (search_scopes key (n ∷ ms) ≡ none)
      unset = or_else-none (lookup key m) (search_scopes key (n ∷ ms)) q

      goal : List (Map K ScopedId) → Type 0
      goal xs =
          search_scopes j xs ≡ (if e.beq key j then some value else search_scopes j (m ∷ n ∷ ms))

      go :
          (r : Option (List (Map K ScopedId)))
          → insert_bottom key value (n ∷ ms) ≡ r
          → ((r : List (Map K ScopedId))
              → insert_bottom key value (n ∷ ms) ≡ some r
              → search_scopes j r ≡ (if e.beq key j then some value else search_scopes j (n ∷ ms)))
          → goal ns
      go none h ih =
          let bad : ◌≡◌ {A = Option (List (Map K ScopedId))} none (some ns) = rw h at p in cc
      go (some r) h ih =
          let made : ◌≡◌ {A = Option (List (Map K ScopedId))} (some (m ∷ r)) (some ns) =
            rw h at p in
          subst goal (eq_of_some made) (ground (arith, ih r h, unset, e.beq_iff key j))

  -- What a definition in the outermost scope makes of that scope.
  abbrev InBottom : K → K → ScopedId → List (Map K ScopedId) → List (Map K ScopedId) → Type 0
  InBottom key j value ms ns =
      (1 ≤ length ms)
      × (length ns ≡ length ms)
      × (search_scopes j (bottom ns)
          ≡ (if e.beq key j then some value else search_scopes j (bottom ms)))

  insert_bottom-InBottom :
      (key j : K) (value : ScopedId) (ms ns : List (Map K ScopedId))
      → insert_bottom key value ms ≡ some ns
      → InBottom key j value ms ns
  unfolding search_scopes insert_bottom
  insert_bottom-InBottom key j value [] ns p = cc
  insert_bottom-InBottom key j value (m ∷ []) ns p =
      subst (InBottom key j value (m ∷ [])) (eq_of_some p)
        (omega arith, refl, ground (arith, lookup-insert key j value m, e.beq_iff key j))
  insert_bottom-InBottom key j value (m ∷ n ∷ ms) ns p =
      go (insert_bottom key value (n ∷ ms)) p (insert_bottom-InBottom key j value (n ∷ ms))
    where
      go :
          (r : Option (List (Map K ScopedId)))
          → under m r ≡ some ns
          → ((q : List (Map K ScopedId)) → r ≡ some q → InBottom key j value (n ∷ ms) q)
          → InBottom key j value (m ∷ n ∷ ms) ns
      go none q ih = cc
      go (some r) q ih =
          let (h, same, found) = ih r refl in
          subst (InBottom key j value (m ∷ n ∷ ms)) (eq_of_some q)
            (omega arith, ap suc same, rw (bottom-cons m r (omega (arith, h, same))) found)

module _ {K I : Type 0} ⦃e : Eq K⦄ where
  -- A local definition binds its name, and no other, and records its information.
  pub get-define_local :
      (key j : K) (value id : ScopedId) (info : I) (b b' : ScopeBuilder K I)
      → define_local key value info b ≡ some b'
      → (get j b' ≡ (if e.beq key j then some value else get j b))
        × (info_for id b' ≡ (if same_id value id then some info else info_for id b))
  unfolding define_local get info_for search_scopes
  get-define_local key j value id info b b' h = go b.scopes h
    where
      go :
          (ms : List (Map K ScopedId))
          → on_scopes (insert_top key value ms) (insert value info b.defined) ≡ some b'
          → (get j b' ≡ (if e.beq key j then some value else search_scopes j ms))
            × (info_for id b' ≡ (if same_id value id then some info else info_for id b))
      go [] p = cc
      go (m ∷ ms) p =
          ground (arith, lookup-insert key j value m, lookup-insert value id info b.defined)

  get-insert_bottom :
      (key j : K) (value : ScopedId) (info : I) (b b' : ScopeBuilder K I)
      → define_global key value info b ≡ some b'
      → get key b ≡ none
      → get j b' ≡ (if e.beq key j then some value else get j b)
  unfolding define_global get
  get-insert_bottom key j value info b b' p q = go (insert_bottom key value b.scopes) refl
    where
      go :
          (r : Option (List (Map K ScopedId)))
          → insert_bottom key value b.scopes ≡ r
          → search_scopes j b'.scopes
            ≡ (if e.beq key j then some value else search_scopes j b.scopes)
      go none h = let bad : ◌≡◌ {A = Option (ScopeBuilder K I)} none (some b') = rw h at p in cc
      go (some ms) h =
          let made : ◌≡◌ {A = Option (ScopeBuilder K I)}
              (some (record { scopes = ms; defined = insert value info b.defined })) (some b') =
            rw h at p in
          subst
            (λ (x : ScopeBuilder K I).
              search_scopes j x.scopes
              ≡ (if e.beq key j then some value else search_scopes j b.scopes))
            (eq_of_some made) (search_scopes-insert_bottom key j value b.scopes ms h q)

  in_scope_one :
      (j : K) (b : ScopeBuilder K I)
      → 1 ≤ length b.scopes
      → in_scope j 1 b ≡ some (search_scopes j (bottom b.scopes))
  unfolding in_scope
  in_scope_one j b h =
      let fits : leb 1 (length b.scopes) ≡ true = ground (arith, h) in
      rw (fits, drop-bottom b.scopes) refl

  define_global-bottom :
      (key j : K) (value : ScopedId) (info : I) (b b' : ScopeBuilder K I)
      → define_global key value info b ≡ some b'
      → InBottom key j value b.scopes b'.scopes
  unfolding define_global
  define_global-bottom key j value info b b' p =
      go (insert_bottom key value b.scopes) p (insert_bottom-InBottom key j value b.scopes)
    where
      go :
          (r : Option (List (Map K ScopedId)))
          → on_scopes r (insert value info b.defined) ≡ some b'
          → ((q : List (Map K ScopedId)) → r ≡ some q → InBottom key j value b.scopes q)
          → InBottom key j value b.scopes b'.scopes
      go none q ih = cc
      go (some ms) q ih =
          subst (λ (x : ScopeBuilder K I). InBottom key j value b.scopes x.scopes) (eq_of_some q)
            (ih ms refl)

  -- A global definition of a name that no scope has binds that name, and no other, whichever scope is
  -- the current one; and it binds it in the outermost scope, where it stays when the others are left.
  pub get-define_global :
      (key j : K) (value : ScopedId) (info : I) (b b' : ScopeBuilder K I)
      → define_global key value info b ≡ some b'
      → get key b ≡ none
      → (get j b' ≡ (if e.beq key j then some value else get j b))
        × (in_scope j 1 b' ≡ (if e.beq key j then some (some value) else in_scope j 1 b))
  get-define_global key j value info b b' p q =
      let (h, same, found) = define_global-bottom key j value info b b' p in
      (
        get-insert_bottom key j value info b b' p q,
        rw (in_scope_one j b' (omega (arith, h, same)), in_scope_one j b h, found)
            (some-if (e.beq key j) value (search_scopes j (bottom b.scopes))),
      )

  -- What a visitor does between entering a scope and leaving it: local definitions, and scopes
  -- that it enters and leaves.
  pub data Within : ScopeBuilder K I → ScopeBuilder K I → Type 0 where
    here : {s : ScopeBuilder K I} → Within s s
    defines :
        {s t u : ScopeBuilder K I} (key : K) (value : ScopedId) (info : I)
        → define_local key value info s ≡ some t
        → Within t u
        → Within s u
    block : {s t u : ScopeBuilder K I} → Within (new_scope s) t → Within (pop t) u → Within s u

  below-define_local :
      (key : K) (value : ScopedId) (info : I) (s t : ScopeBuilder K I)
      → define_local key value info s ≡ some t
      → (below t.scopes ≡ below s.scopes) × (length t.scopes ≡ length s.scopes)
  unfolding define_local
  below-define_local key value info s t h = go s.scopes h
    where
      go :
          (ms : List (Map K ScopedId))
          → on_scopes (insert_top key value ms) (insert value info s.defined) ≡ some t
          → (below t.scopes ≡ below ms) × (length t.scopes ≡ length ms)
      go [] p = cc
      go (m ∷ ms) p = ground arith

  below-Within : {s t : ScopeBuilder K I} → Within s t → (below t.scopes ≡ below s.scopes)
  below-Within here = refl
  below-Within (defines {s} {t} key value info h w) =
      below-Within w ∙ (below-define_local key value info s t h).0
  below-Within (block {s} {t} v w) = below-Within w ∙ ap below (below-Within v)

  -- Whatever is defined in a scope and in the scopes within it, every name resolves behind the
  -- scope to what it resolved to in front of it.
  pub get-pop-Within :
      {s t : ScopeBuilder K I} (j : K) → Within (new_scope s) t → get j (pop t) ≡ get j s
  unfolding get
  get-pop-Within j w = ap (search_scopes j) (below-Within w)

  -- With a level, `in_scope` finds what `get` would find if only that many of the outermost scopes were
  -- there; with more levels than scopes it panics.
  pub in_scope_lem :
      (key : K) (inner outer : List (Map K ScopedId)) (d : Map ScopedId I) (extra : ℕ)
      → (in_scope key (length outer) (record { scopes = inner ++ outer; defined = d })
          ≡ some (get key (record { scopes = outer; defined = d })))
        × (in_scope key
              (suc (length (inner ++ outer) + extra))
              (record { scopes = inner ++ outer; defined = d })
            ≡ none)
  unfolding in_scope get
  in_scope_lem key inner outer d extra =
      let n = length (inner ++ outer) in
      let sum : n ≡ length inner + length outer = length-append inner outer in
      let fits : leb (length outer) n ≡ true = ground (arith, sum) in
      let rest : n - length outer ≡ length inner = omega (arith, sum) in
      let too_many : leb (suc (n + extra)) n ≡ false = ground arith in
      (rw (fits, rest, drop-append inner outer) refl, rw too_many refl)
