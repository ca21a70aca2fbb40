-- ===== src/Identify/Names/Leaves.antt =====
-- src/identify/names: what a visit that adds no error leaves as it was.
use protosnirk.Prelude.{
  ◌≤◌, ◌≡◌, refl, sym, ap, ◌∙◌, some, List, [], ◌∷◌, ◌++◌, append-nil, append_assoc, eq_of_some,
  length,
}
use protosnirk.Ast.Index.{ScopedId, incremented, pushed, popped}
use protosnirk.Ast.Index.Laws.{popped-pushed}
use protosnirk.Check.Errors.{CheckerError}
use protosnirk.Identify.ScopeBuilder.{new_scope, pop, below}
use protosnirk.Identify.Names.Frame.{Frame, Ready, incremented-returns}

-- Either errors were added, or there are none and the scopes below the top one and the level of the
-- id are the same.
pub data Leaves (f g : Frame) : Type 0 where
  fails : (e : CheckerError) (es : List CheckerError) → g.errors ≡ f.errors ++ e ∷ es → Leaves f g
  keeps :
      g.errors ≡ f.errors
      → below g.builder.scopes ≡ below f.builder.scopes
      → popped g.id ≡ popped f.id
      → Leaves f g

-- Either errors were added, or there are none, the scopes are the same and the id is the next one.
pub data Restores (f g : Frame) : Type 0 where
  fails : (e : CheckerError) (es : List CheckerError) → g.errors ≡ f.errors ++ e ∷ es → Restores f g
  restores :
      g.errors ≡ f.errors
      → g.builder.scopes ≡ f.builder.scopes
      → incremented f.id ≡ some g.id
      → Restores f g

pub Leaves-trans : (f g h : Frame) → Leaves f g → Leaves g h → Leaves f h
Leaves-trans f g h (fails e es p) (fails e' es' q) =
    fails e (es ++ e' ∷ es')
      (q ∙ ap (λ l. l ++ e' ∷ es') p ∙ append_assoc f.errors (e ∷ es) (e' ∷ es'))
Leaves-trans f g h (fails e es p) (keeps q s i) = fails e es (q ∙ p)
Leaves-trans f g h (keeps p s i) (fails e es q) = fails e es (q ∙ ap (λ l. l ++ e ∷ es) p)
Leaves-trans f g h (keeps p s i) (keeps q t j) = keeps (q ∙ p) (t ∙ s) (j ∙ i)

pub Leaves-errors :
    (f : Frame) (es : List CheckerError) → Leaves f (record f { errors = f.errors ++ es })
Leaves-errors f [] = keeps (append-nil f.errors) refl refl
Leaves-errors f (e ∷ es) = fails e es refl

pub popped-incremented :
    (id id' : ScopedId) → 1 ≤ length id.indices → incremented id ≡ some id' → popped id' ≡ popped id
popped-incremented id id' h e =
    let (id'', e', l, p) = incremented-returns id h in ap popped (eq_of_some (sym e ∙ e')) ∙ p

pub Leaves-Restores : (f g : Frame) → Ready f → Restores f g → Leaves f g
Leaves-Restores f g r (fails e es p) = fails e es p
Leaves-Restores f g (known, deep, long) (restores p s i) =
    keeps p (ap below s) (popped-incremented f.id g.id long i)

-- The way back out of a scope.
pub Restores-left :
    (f g : Frame) (id : ScopedId)
    → Leaves (record f { builder = new_scope f.builder; id = pushed f.id }) g
    → incremented (popped g.id) ≡ some id
    → Restores f (record g { builder = pop g.builder; id = id })
Restores-left f g id (fails e es p) i = fails e es p
Restores-left f g id (keeps p s j) i =
    restores p s (ap incremented (sym (popped-pushed f.id)) ∙ ap incremented (sym j) ∙ i)

-- The way back from an id that was pushed without a scope.
pub Leaves-unnested :
    (f g : Frame) (id : ScopedId)
    → 1 ≤ length f.id.indices
    → Leaves (record f { id = pushed f.id }) g
    → incremented (popped g.id) ≡ some id
    → Leaves f (record g { id = id })
Leaves-unnested f g id long (fails e es p) i = fails e es p
Leaves-unnested f g id long (keeps p s j) i = keeps p s (
    popped-incremented f.id id long
      (ap incremented (sym (popped-pushed f.id)) ∙ ap incremented (sym j) ∙ i))
