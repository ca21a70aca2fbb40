-- ===== src/Identify/Petgraph/History.antt =====
-- An implementation of the interface: the history of a graph, which knows reachability edge by edge.
use mathlib.Core.List.{Memᴰ}
use mathlib.Core.List.Memᴰ
use mathlib.Core.Logic.{⊎_elim}
use protosnirk.Prelude.{
  ℕ, zero, suc, ◌≡◌, ◌↔◌, ◌⊎◌, inl, inr, refl, Bool, true, false, ◌&&◌, ◌||◌, Option, none, some,
  List, [], ◌∷◌, ◌==◌, ltb, if◌then◌else◌, arith, subst, ==_iff, sym,
}
use protosnirk.Identify.Petgraph.{Petgraph, IsLawful, Reaches, here, along}

pub data History (N : Type 0) : Type 0 where
  start : History N
  node : N → History N → History N
  edge : ℕ → ℕ → History N → History N

module _ {N : Type 0} where
  abbrev pub count : History N → ℕ
  count start = 0
  count (node n g) = suc (count g)
  count (edge a b g) = count g

  abbrev pub weight_of : ℕ → History N → Option N
  weight_of j start = none
  weight_of j (node n g) = if j == count g then some n else weight_of j g
  weight_of j (edge a b g) = weight_of j g

  -- Whether there is a way along the edges.
  abbrev pub reach : History N → ℕ → ℕ → Bool
  reach start i j = i == j
  reach (node n g) i j = reach g i j
  reach (edge a b g) i j =
      reach g i j || (ltb a (count g) && ltb b (count g) && reach g i a && reach g b j)

  abbrev pub Edge : History N → ℕ → ℕ → Type 0
  Edge start i j = ⊥
  Edge (node n g) i j = Edge g i j
  Edge (edge a b g) i j =
      Edge g i j ⊎ ((i ≡ a) × (j ≡ b) × (ltb a (count g) ≡ true) × (ltb b (count g) ≡ true))

  abbrev pub reached : History N → ℕ → ℕ → List ℕ
  reached g a zero = []
  reached g a (suc n) = if reach g a n then n ∷ reached g a n else reached g a n

  abbrev pub connect : ℕ → ℕ → History N → Option (History N)
  connect a b g = if ltb a (count g) && ltb b (count g) then some (edge a b g) else none

module _ {N E : Type 0} where
  instance abbrev pub history_petgraph : Petgraph (History N) N E
  history_petgraph = record {
    empty = start;
    add_node = λ n g. some (count g, node n g);
    add_edge = λ a b e g. connect a b g;
    weight = weight_of;
    dfs = λ a g. reached g a (count g);
  }

module _ {N : Type 0} where
  reach_refl : (g : History N) (i : ℕ) → reach g i i ≡ true
  reach_refl start i = ground arith
  reach_refl (node n g) i = reach_refl g i
  reach_refl (edge a b g) i = ground (arith, reach_refl g i)

Reaches-map :
    {R S : ℕ → ℕ → Type 0} → ((i j : ℕ) → R i j → S i j) → {i j : ℕ} → Reaches R i j → Reaches S i j
Reaches-map h here = here
Reaches-map h (along e w) = along (h _ _ e) (Reaches-map h w)

Reaches-join : {R : ℕ → ℕ → Type 0} {i k j : ℕ} → Reaches R i k → Reaches R k j → Reaches R i j
Reaches-join here w = w
Reaches-join (along e v) w = along e (Reaches-join v w)

either : (x y : Bool) → (x || y) ≡ true → (x ≡ true) ⊎ (y ≡ true)
either true y h = inl refl
either false y h = inr h

both : (x y : Bool) → (x && y) ≡ true → (x ≡ true) × (y ≡ true)
both true y h = (refl, h)
both false y h = cc

below_suc : (b n : ℕ) → ltb b (suc n) ≡ true → (ltb b n ≡ true) ⊎ (b ≡ n)
below_suc b n h = ground arith

differ : {x : Bool} → x ≡ true → x ≡ false → ⊥
differ t f = cc

new_way :
    (x y z c d r : Bool)
    → c ≡ true
    → d ≡ true
    → r ≡ true
    → (y || (c && d && z && y)) ≡ true
    → (x || (c && d && r && y)) ≡ true
new_way x y z c d r hc hd hr h = ground arith

module _ {N : Type 0} where
  -- What `reach` finds is a way.
  reach_way : (g : History N) (i j : ℕ) → reach g i j ≡ true → Reaches (Edge g) i j
  reach_way start i j h = subst (Reaches (Edge {N = N} start) i) ((==_iff i j).0 h) here
  reach_way (node n g) i j h = reach_way g i j h
  reach_way (edge a b g) i j h =
      go (reach_way g i j) (reach_way g i a) (reach_way g b j)
        (either (reach g i j) (ltb a (count g) && ltb b (count g) && reach g i a && reach g b j) h)
    where
      widen : {i j : ℕ} → Reaches (Edge g) i j → Reaches (Edge (edge a b g)) i j
      widen w = Reaches-map (λ x y e. inl e) w

      go :
          (old : reach g i j ≡ true → Reaches (Edge g) i j)
          (to : reach g i a ≡ true → Reaches (Edge g) i a)
          (from : reach g b j ≡ true → Reaches (Edge g) b j)
          → (reach g i j ≡ true)
            ⊎ ((ltb a (count g) && ltb b (count g) && reach g i a && reach g b j) ≡ true)
          → Reaches (Edge (edge a b g)) i j
      go old to from (inl r) = widen (old r)
      go old to from (inr r) =
          let (lr, last) =
            both (ltb a (count g) && ltb b (count g) && reach g i a) (reach g b j) r in
          let (ll, first) = both (ltb a (count g) && ltb b (count g)) (reach g i a) lr in
          let (la, lb) = both (ltb a (count g)) (ltb b (count g)) ll in
          Reaches-join (widen (to first)) (along (inr (refl, refl, la, lb)) (widen (from last)))

  -- An edge in front of a way.
  reach_along : (g : History N) (i k j : ℕ) → Edge g i k → reach g k j ≡ true → reach g i j ≡ true
  reach_along start i k j e h = absurd e
  reach_along (node n g) i k j e h = reach_along g i k j e h
  reach_along (edge a b g) i k j (inl e) h =
      ground (arith, reach_along g i k j e, reach_along g i k a e)
  reach_along (edge a b g) i k j (inr (ia, kb, la, lb)) h = rw ia (
      new_way (reach g a j) (reach g b j) (reach g b a) (ltb a (count g)) (ltb b (count g))
        (reach g a a) la lb (reach_refl g a) (subst (λ x. reach (edge a b g) x j ≡ true) kb h))

  way_reach : (g : History N) {i j : ℕ} → Reaches (Edge g) i j → reach g i j ≡ true
  way_reach g here = reach_refl g _
  way_reach g (along {a = i} {b = k} {c = j} e w) = reach_along g i k j e (way_reach g w)

  Edge-count : (g : History N) (i j : ℕ) → Edge g i j → ltb j (count g) ≡ true
  Edge-count start i j e = absurd e
  Edge-count (node n g) i j e = ground (arith, Edge-count g i j e)
  Edge-count (edge a b g) i j (inl e) = Edge-count g i j e
  Edge-count (edge a b g) i j (inr (ia, jb, la, lb)) = rw jb lb

  Reaches-count :
      (g : History N) {i j : ℕ}
      → ltb i (count g) ≡ true
      → Reaches (Edge g) i j
      → ltb j (count g) ≡ true
  Reaches-count g h here = h
  Reaches-count g h (along {a = i} {b = k} {c = j} e w) = Reaches-count g (Edge-count g i k e) w

  Mem-reached :
      (g : History N) (a n b : ℕ)
      → Memᴰ b (reached g a n) ↔ ((ltb b n ≡ true) × (reach g a b ≡ true))
  Mem-reached g a zero b = (λ m. absurd (Memᴰ.not-nil m), λ h. absurd (ground (arith, h.0)))
  Mem-reached g a (suc n) b = go (reach g a n) refl (Mem-reached g a n b)
    where
      go :
          (r : Bool)
          → reach g a n ≡ r
          → Memᴰ b (reached g a n) ↔ ((ltb b n ≡ true) × (reach g a b ≡ true))
          → Memᴰ b (if r then n ∷ reached g a n else reached g a n)
            ↔ ((ltb b (suc n) ≡ true) × (reach g a b ≡ true))
      go true e ih = (
        λ m.
            ⊎_elim
              (λ bn. (
                subst (λ x. ltb x (suc n) ≡ true) (sym bn) (ground arith),
                subst (λ x. reach g a x ≡ true) (sym bn) e,
              ))
              (λ m'. let (l, r) = ih.0 m' in (ground (arith, l), r)) (Memᴰ.cases_cons m),
        λ (l, r). ⊎_elim (λ lt. Memᴰ.tail (ih.1 (lt, r))) (λ bn. Memᴰ.head bn) (below_suc b n l),
      )
      go false e ih = (
        λ m. let (l, r) = ih.0 m in (ground (arith, l), r),
        λ (l, r).
            ⊎_elim (λ lt. ih.1 (lt, r))
              (λ bn. absurd (differ (subst (λ x. reach g a x ≡ true) bn r) e)) (below_suc b n l),
      )

  weight-count : (g : History N) (j : ℕ) (n : N) → weight_of j g ≡ some n → ltb j (count g) ≡ true
  weight-count start j n h = cc
  weight-count (node m g) j n h = go (weight-count g j n) (j == count g) refl h
    where
      go :
          (later : weight_of j g ≡ some n → ltb j (count g) ≡ true) (b : Bool)
          → (j == count g) ≡ b
          → (if b then some m else weight_of j g) ≡ some n
          → ltb j (suc (count g)) ≡ true
      go later true e h = ground (arith, e)
      go later false e h = ground (arith, later h)
  weight-count (edge a b g) j n h = weight-count g j n h

  count-weight :
      (g : History N) (j : ℕ) → ltb j (count g) ≡ true → (n : N) × (weight_of j g ≡ some n)
  count-weight start j h = absurd (ground arith)
  count-weight (node m g) j h = go (count-weight g j) (j == count g) refl
    where
      go :
          (later : ltb j (count g) ≡ true → (n : N) × (weight_of j g ≡ some n)) (b : Bool)
          → (j == count g) ≡ b
          → (n : N) × ((if b then some m else weight_of j g) ≡ some n)
      go later true e = (m, refl)
      go later false e = later (ground (arith, e, h))
  count-weight (edge a b g) j h = count-weight g j h

  pub history-IsLawful : {E : Type 0} → IsLawful (history_petgraph {N = N} {E = E}) Edge
  history-IsLawful = record {
    dfs-Reaches = λ g a n h b. (
      λ m. reach_way g a b ((Mem-reached g a (count g) b).0 m).1,
      λ w.
          (Mem-reached g a (count g) b).1 (Reaches-count g (weight-count g a n h) w, way_reach g w),
    );
    dfs-weight = λ g a b m. count-weight g b ((Mem-reached g a (count g) b).0 m).0;
  }

  -- An edge between two nodes of the graph.
  pub connect-returns :
      (g : History N) (a b : ℕ) (n m : N)
      → weight_of a g ≡ some n
      → weight_of b g ≡ some m
      → (h : History N) × (connect a b g ≡ some h)
  connect-returns g a b n m ha hb = (
    edge a b g,
    go (ltb a (count g)) (ltb b (count g)) (weight-count g a n ha) (weight-count g b m hb),
  )
    where
      go :
          (c d : Bool)
          → c ≡ true
          → d ≡ true
          → ◌≡◌ {A = Option (History N)}
              (if c && d then some (edge a b g) else none)
              (some (edge a b g))
      go true true hc hd = refl
      go true false hc hd = cc
      go false d hc hd = cc
