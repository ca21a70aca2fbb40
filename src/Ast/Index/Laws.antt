-- ===== src/Ast/Index/Laws.antt =====
-- src/ast/index.rs: what the operations on a `ScopedId` undo and tell apart.
use protosnirk.Prelude.{
  ℕ, zero, suc, ◌+◌, ◌-◌, ◌%◌, ◌<◌, ◌≡◌, refl, ap, subst, Bool, false, Option, none, some, List, [],
  ◌∷◌, ◌++◌, length, text_eq, text_eq_iff, arith, Bool-cases, inl, inr, ◌≤◌,
}
use protosnirk.Ast.Index.{
  ScopedId, u16_mod, update_last, drop_last, incremented, decremented, pushed, popped,
  is_subindex_of, take, prepend, scoped,
}

drop_last-snoc : (ns : List ℕ) (n : ℕ) → drop_last (ns ++ n ∷ []) ≡ ns
unfolding drop_last
drop_last-snoc [] n = refl
drop_last-snoc (m ∷ []) n = refl
drop_last-snoc (m ∷ k ∷ ns) n = ap (λ xs. m ∷ xs) (drop_last-snoc (k ∷ ns) n)

-- Leaving a scope undoes entering it.
pub popped-pushed : (s : ScopedId) → popped (pushed s) ≡ s
unfolding popped pushed
popped-pushed s = ap (λ ns. record { indices = ns }) (drop_last-snoc s.indices 0)

-- The id with the index `n` in the scope `ns`.
abbrev pub id_at : List ℕ → ℕ → ScopedId
id_at ns n = record { indices = ns ++ n ∷ [] }

update_last-snoc :
    (f : ℕ → ℕ) (ns : List ℕ) (n : ℕ) → update_last f (ns ++ n ∷ []) ≡ some (ns ++ f n ∷ [])
unfolding update_last
update_last-snoc f [] n = refl
update_last-snoc f (m ∷ []) n = refl
update_last-snoc f (m ∷ k ∷ ns) n = ap (prepend m) (update_last-snoc f (k ∷ ns) n)

pub incremented-id_at :
    (ns : List ℕ) (n : ℕ) → incremented (id_at ns n) ≡ some (id_at ns ((n + 1) % u16_mod))
unfolding incremented
incremented-id_at ns n = ap scoped (update_last-snoc (λ k. (k + 1) % u16_mod) ns n)

pub decremented-id_at :
    (ns : List ℕ) (n : ℕ) → decremented (id_at ns n) ≡ some (id_at ns ((n + u16_mod - 1) % u16_mod))
unfolding decremented
decremented-id_at ns n = ap scoped (update_last-snoc (λ k. (k + u16_mod - 1) % u16_mod) ns n)

-- `k` calls of `increment`, and of `decrement`.
unfoldable pub increments : ℕ → ScopedId → Option ScopedId
increments zero s = some s
increments (suc k) s = elim (increments k s) [ none ↦ none | some t ↦ incremented t ]

unfoldable pub decrements : ℕ → ScopedId → Option ScopedId
decrements zero s = some s
decrements (suc k) s = elim (decrements k s) [ none ↦ none | some t ↦ decremented t ]

increments-pushed :
    (s : ScopedId) (k : ℕ) → k < u16_mod → increments k (pushed s) ≡ some (id_at s.indices k)
unfolding increments pushed
increments-pushed s zero h = refl
increments-pushed s (suc k) h =
    let same : (k + 1) % u16_mod ≡ suc k = omega (arith, h) in
    rw (increments-pushed s k (omega (arith, h)), incremented-id_at s.indices k, same) refl

decrements-id_at :
    (ns : List ℕ) (k n : ℕ) → k + n < u16_mod → decrements k (id_at ns (k + n)) ≡ some (id_at ns n)
unfolding decrements
decrements-id_at ns zero n h =
    let same : 0 + n ≡ n = omega arith in ap (λ m. some (id_at ns m)) same
decrements-id_at ns (suc k) n h =
    let moved : suc k + n ≡ k + suc n = omega arith in
    let same : (suc n + u16_mod - 1) % u16_mod ≡ n = omega (arith, h) in
    rw (moved, decrements-id_at ns k (suc n) (omega (arith, h)), decremented-id_at ns (suc n), same)
      refl

-- The ids of a scope: behind entering it and `k` increments, fewer than a `u16` counts, the id has the
-- indices of the scope and the index `k`, so that no two of these ids are the same. Leaving it gives
-- the id of the scope back, and `k` decrements the first id.
pub increments-pushed_lem :
    (s : ScopedId) (k : ℕ)
    → k < u16_mod
    → (t : ScopedId) × (increments k (pushed s) ≡ some t)
      × (t.indices ≡ s.indices ++ k ∷ [])
      × (popped t ≡ s)
      × (decrements k t ≡ some (pushed s))
unfolding popped pushed
increments-pushed_lem s k h = (
  id_at s.indices k,
  increments-pushed s k h,
  refl,
  ap (λ ns. record { indices = ns }) (drop_last-snoc s.indices k),
  (let zero_on : k + 0 ≡ k = omega arith in
      subst (λ m. decrements k (id_at s.indices m) ≡ some (pushed s)) zero_on
        (decrements-id_at s.indices k 0 (omega (arith, h)))),
)

length-take-le : (k : ℕ) (xs : List ℕ) → length (take k xs) ≤ k
length-take-le zero xs = omega arith
length-take-le (suc k) [] = omega arith
length-take-le (suc k) (x ∷ xs) = omega (arith, length-take-le k xs)

-- What the code makes of every two ids.
abbrev pub subindex_answer : List ℕ → Option Bool
subindex_answer [] = none
subindex_answer (n ∷ ns) = some false

-- The slice that `is_subindex_of` compares is shorter than the indices that it is compared with. So
-- an id with an index is a subindex of no id, not of itself nor of one pushed from it, and an id with
-- no index panics on every other.
pub is_subindex_of_lem : (s other : ScopedId) → is_subindex_of s other ≡ subindex_answer s.indices
unfolding is_subindex_of
is_subindex_of_lem s other = go s.indices other.indices
  where
    go :
        (ns ms : List ℕ)
        → is_subindex_of (record { indices = ns }) (record { indices = ms }) ≡ subindex_answer ns
    go [] ms = ground arith
    go (n ∷ ns) ms =
        let eq = (text_eq_iff (take (length ns) ms) (n ∷ ns)).0 in
        let len : length (take (length ns) ms) ≤ length ns = length-take-le (length ns) ms in
        elim (Bool-cases (text_eq (take (length ns) ms) (n ∷ ns))) [
          | inl p ↦
              let same : length (take (length ns) ms) ≡ suc (length ns) = ap length (eq p) in
              absurd (omega arith)
          | inr p ↦ ground arith
        ]
