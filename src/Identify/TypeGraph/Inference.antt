-- ===== src/Identify/TypeGraph/Inference.antt =====
-- src/identify/types/type_graph.rs: `infer_type_of_var` against reachability.
use mathlib.Core.List.{Memᴰ}
use mathlib.Core.List.Memᴰ
use mathlib.Core.Logic.{⊎_elim}
use protosnirk.Prelude.{
  ℕ, ◌≡◌, ◌≢◌, ◌↔◌, refl, sym, ap, ◌∙◌, subst, ◌⊎◌, inl, inr, Option, some, List, [], ◌∷◌,
  eq_of_some,
}
use protosnirk.Prelude.States.{pure, gets, expect, attempt, ◌>>=◌, ◌>>◌}
use protosnirk.Ast.Index.{ScopedId, scoped_id_has_eq}
use protosnirk.Identify.Petgraph.{Petgraph, IsLawful, Reaches}
use protosnirk.Identify.TypeGraph.{
  TypeGraph, TypeNode, InferenceSource, concrete_type, variable_type, expression_type, call_arg,
  call_return, concrete_id, found_types, found_at, keep, ids, inferred, inferred_from, infer_at,
  infer_type_of_var, add_inference, with_graph, variable,
}

pair_eq : {j k : ℕ} {id kd : ScopedId} → j ≡ k → id ≡ kd → ◌≡◌ {A = ℕ × ScopedId} (j, id) (k, kd)
pair_eq e f = cc

same_concrete :
    {id jd : ScopedId}
    → ◌≡◌ {A = Option TypeNode} (some (concrete_type id)) (some (concrete_type jd))
    → id ≡ jd
same_concrete e = cc

module _ {G : Type 0} ⦃p : Petgraph G TypeNode InferenceSource⦄ (Edge : G → ℕ → ℕ → Type 0)
    (lawful : IsLawful p Edge) where
  -- A node for the concrete type `id`.
  abbrev pub IsConcrete : G → ℕ → ScopedId → Type 0
  IsConcrete g j id = p.weight j g ≡ some (concrete_type id)

  -- The answer to a search from the node `a`: the only concrete type that can be reached, or the
  -- list of all, if there is none or there are several entries.
  pub data Answers (a : ℕ) (g : TypeGraph G)
      : Option (((ℕ × ScopedId) ⊎ List ScopedId) × TypeGraph G) → Type 0 where
    only :
        (k : ℕ) (id : ScopedId) (h : TypeGraph G)
        → Reaches (Edge g.graph) a k
        → IsConcrete g.graph k id
        → ((j : ℕ) (jd : ScopedId)
            → Reaches (Edge g.graph) a j
            → IsConcrete g.graph j jd
            → (j ≡ k) × (jd ≡ id))
        → Answers a g (some (inl (k, id), h))
    all :
        (found : List ScopedId)
        → ((id : ScopedId) → found ≢ id ∷ [])
        → ((id : ScopedId)
            → Memᴰ id found ↔ ((j : ℕ) × Reaches (Edge g.graph) a j × IsConcrete g.graph j id))
        → Answers a g (some (inr found, g))

  -- What the search finds.
  abbrev Finds : G → List ℕ → List (ℕ × ScopedId) → Type 0
  Finds g xs found = (j : ℕ) (id : ScopedId) → Memᴰ (j, id) found ↔ (Memᴰ j xs × IsConcrete g j id)

  -- A node that is not for a concrete type is passed over.
  skip :
      (g : G) (x : ℕ) (xs : List ℕ) (n : TypeNode) (found : List (ℕ × ScopedId))
      → ((id : ScopedId) → n ≢ concrete_type id)
      → p.weight x g ≡ some n
      → Finds g xs found
      → Finds g (x ∷ xs) found
  skip g x xs n found other w finds j id = (
    λ m. let (l, c) = (finds j id).0 m in (Memᴰ.tail l, c),
    λ (l, c).
        ⊎_elim (λ jx. absurd (other id (eq_of_some (sym w ∙ ap (λ y. p.weight y g) (sym jx) ∙ c))))
          (λ l'. (finds j id).1 (l', c)) (Memᴰ.cases_cons l),
  )

  found_types-returns :
      (g : G) (xs : List ℕ)
      → ((j : ℕ) → Memᴰ j xs → (n : TypeNode) × (p.weight j g ≡ some n))
      → (found : List (ℕ × ScopedId)) × (found_types xs g ≡ some found) × Finds g xs found
  unfolding found_types found_at keep
  found_types-returns g [] known =
      ([], refl, λ j id. (λ m. absurd (Memᴰ.not-nil m), λ m. absurd (Memᴰ.not-nil m.0)))
  found_types-returns g (x ∷ xs) known =
      let (found, e, finds) = found_types-returns g xs (λ j m. known j (Memᴰ.tail m)) in
      let (n, w) = known x (Memᴰ.head refl) in
      (keep x (concrete_id n) found, rw (w, e) refl, go n found w finds)
    where
      go :
          (n : TypeNode) (found : List (ℕ × ScopedId))
          → p.weight x g ≡ some n
          → Finds g xs found
          → Finds g (x ∷ xs) (keep x (concrete_id n) found)
      go (concrete_type jd) found w finds j id = (
        λ m.
            ⊎_elim
              (λ e.
                let jx = ap (λ (q : ℕ × ScopedId). q.0) e in
                let idd = ap (λ (q : ℕ × ScopedId). q.1) e in
                (
                  Memᴰ.head jx,
                  subst (λ y. p.weight y g ≡ some (concrete_type id)) (sym jx)
                      (subst (λ i. p.weight x g ≡ some (concrete_type i)) (sym idd) w),
                ))
              (λ m'. let (l, c) = (finds j id).0 m' in (Memᴰ.tail l, c)) (Memᴰ.cases_cons m),
        λ (l, c).
            ⊎_elim
              (λ jx. Memᴰ.head (pair_eq jx (same_concrete (sym c ∙ ap (λ y. p.weight y g) jx ∙ w))))
              (λ l'. Memᴰ.tail ((finds j id).1 (l', c))) (Memᴰ.cases_cons l),
      )
      go (variable_type v) found w finds j id =
          skip g x xs (variable_type v) found (λ i e. cc) w finds j id
      go expression_type found w finds j id =
          skip g x xs expression_type found (λ i e. cc) w finds j id
      go (call_arg c k) found w finds j id =
          skip g x xs (call_arg c k) found (λ i e. cc) w finds j id
      go (call_return k) found w finds j id =
          skip g x xs (call_return k) found (λ i e. cc) w finds j id

  -- What is found, from the node of the variable.
  searched :
      (g : G) (a : ℕ) (n : TypeNode)
      → p.weight a g ≡ some n
      → (found : List (ℕ × ScopedId)) × (found_types (p.dfs a g) g ≡ some found)
        × ((j : ℕ) (id : ScopedId)
            → Memᴰ (j, id) found ↔ (Reaches (Edge g) a j × IsConcrete g j id))
  searched g a n h =
      let (found, e, finds) =
        found_types-returns g (p.dfs a g) (λ j m. lawful.dfs-weight g a j m) in
      (
        found,
        e,
        λ j id. (
          λ m. let (l, c) = (finds j id).0 m in ((lawful.dfs-Reaches g a n h j).0 l, c),
          λ (w, c). (finds j id).1 ((lawful.dfs-Reaches g a n h j).1 w, c),
        ),
      )

  ids_lem :
      (found : List (ℕ × ScopedId)) (id : ScopedId)
      → Memᴰ id (ids found) ↔ ((j : ℕ) × Memᴰ (j, id) found)
  ids_lem [] id = (λ m. absurd (Memᴰ.not-nil m), λ m. absurd (Memᴰ.not-nil m.1))
  ids_lem ((k, kd) ∷ found) id =
      let ih = ids_lem found id in
      (
        λ m.
            ⊎_elim (λ e. (k, Memᴰ.head (pair_eq refl e)))
              (λ m'. let (j, l) = ih.0 m' in (j, Memᴰ.tail l)) (Memᴰ.cases_cons m),
        λ (j, m).
            ⊎_elim (λ e. Memᴰ.head (ap (λ (q : ℕ × ScopedId). q.1) e))
              (λ m'. Memᴰ.tail (ih.1 (j, m'))) (Memᴰ.cases_cons m),
      )

  answers :
      (var_ix : ℕ) (g : TypeGraph G) (found : List (ℕ × ScopedId))
      → ((k : ℕ) (id : ScopedId)
          → IsConcrete g.graph k id
          → (h : G) × (p.add_edge var_ix k inferred g.graph ≡ some h))
      → ((j : ℕ) (id : ScopedId)
          → Memᴰ (j, id) found ↔ (Reaches (Edge g.graph) var_ix j × IsConcrete g.graph j id))
      → Answers var_ix g (inferred_from var_ix found g)
  unfolding inferred_from add_inference attempt with_graph ◌>>=◌ ◌>>◌ pure
  answers a g [] room finds =
      all [] (λ id e. cc)
        (λ id. (
          λ m. absurd (Memᴰ.not-nil m),
          λ (j, w, c). absurd (Memᴰ.not-nil ((finds j id).1 (w, c))),
        ))
  answers a g ((k, kd) ∷ []) room finds =
      let (w, c) = (finds k kd).0 (Memᴰ.head refl) in
      let (h, e) = room k kd c in
      rw e (
        only k kd (record g { graph = h }) w c
          λ j jd w' c'.
            let q = Memᴰ.eq_of_singleton ((finds j jd).1 (w', c')) in
            (ap (λ (q : ℕ × ScopedId). q.0) q, ap (λ (q : ℕ × ScopedId). q.1) q))
  answers a g (x ∷ y ∷ rest) room finds =
      all (ids (x ∷ y ∷ rest)) (λ id e. cc)
        (λ id. (
          λ m.
              let (j, l) = (ids_lem (x ∷ y ∷ rest) id).0 m in
              let (w, c) = (finds j id).0 l in (j, w, c),
          λ (j, w, c). (ids_lem (x ∷ y ∷ rest) id).1 (j, (finds j id).1 (w, c)),
        ))

  -- For a variable of the graph, under the documented behaviour of the search of petgraph and where
  -- the graph has room for one more edge from the variable's node to a concrete type, the inference
  -- of its type returns. It answers with a type only if that is the one concrete type that can be
  -- reached from the variable along the inferences, and at the only node for one; otherwise it
  -- leaves the graph as it was and answers with the concrete types that can be reached, all of them
  -- and no others, in a list that does not have one entry.
  pub infer_type_of_var-Answers :
      (var : ScopedId) (g : TypeGraph G) (a : ℕ) (n : TypeNode)
      → variable var g ≡ some a
      → p.weight a g.graph ≡ some n
      → ((k : ℕ) (id : ScopedId)
          → IsConcrete g.graph k id
          → (h : G) × (p.add_edge a k inferred g.graph ≡ some h))
      → Answers a g (infer_type_of_var var g)
  unfolding infer_type_of_var infer_at ◌>>=◌ gets expect pure
  infer_type_of_var-Answers var g a n known h room =
      let (found, e, finds) = searched g.graph a n h in
      rw known (rw e (answers a g found room finds))
