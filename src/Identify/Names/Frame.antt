-- ===== src/Identify/Names/Frame.antt =====
-- src/identify/names: what the passes over names share, the errors, the scopes and the current id,
-- and how a visit moves them.
use protosnirk.Prelude.{
  ℕ, suc, ◌+◌, ◌-◌, ◌%◌, ◌≤◌, ◌≡◌, refl, ap, some, List, [], ◌∷◌, length, length-append, Text,
  arith,
}
use protosnirk.Prelude.Maps.{Map, lookup, text_has_eq}
use protosnirk.Lex.Span.{Span}
use protosnirk.Ast.Index.{
  ScopedId, incremented, pushed, popped, update_last, drop_last, u16_mod, scoped_id_has_eq,
}
use protosnirk.Check.Errors.{CheckerError}
use protosnirk.Identify.ScopeBuilder.{new_scope, pop, define_local, define_global, below}
use protosnirk.Identify.ScopeBuilder.Known.{
  AllKnown, define_local-returns, define_global-returns, AllKnown-below,
}
use protosnirk.Identify.Names.State.{NameScopeBuilder}

pub record Frame : Type 0 where
  pub errors : List CheckerError
  pub builder : NameScopeBuilder
  pub id : ScopedId

-- A frame that a visit can start from.
abbrev pub Ready : Frame → Type 0
Ready f =
    AllKnown f.builder.defined f.builder.scopes
    × (1 ≤ length f.builder.scopes)
    × (1 ≤ length f.id.indices)

-- A visit never leaves fewer scopes or a shorter id.
pub record Grows (f g : Frame) : Type 0 where
  pub ready : Ready g
  pub deeper : length f.builder.scopes ≤ length g.builder.scopes
  pub longer : length f.id.indices ≤ length g.id.indices

pub Grows-refl : (f : Frame) → Ready f → Grows f f
Grows-refl f r = record { ready = r; deeper = omega arith; longer = omega arith }

pub Grows-trans : {f g h : Frame} → Grows f g → Grows g h → Grows f h
Grows-trans a b = record {
  ready = b.ready;
  deeper = omega (arith, a.deeper, b.deeper);
  longer = omega (arith, a.longer, b.longer);
}

-- The ids.
update_last-returns :
    (f : ℕ → ℕ) (ns : List ℕ)
    → 1 ≤ length ns
    → (ms : List ℕ) × (update_last f ns ≡ some ms)
      × (length ms ≡ length ns)
      × (drop_last ms ≡ drop_last ns)
unfolding update_last drop_last
update_last-returns f [] h = absurd (omega (arith, h))
update_last-returns f (n ∷ []) h = (f n ∷ [], refl, refl, refl)
update_last-returns f (n ∷ m ∷ ns) h = go (update_last-returns f (m ∷ ns) (omega arith))
  where
    go :
        (ms : List ℕ) × (update_last f (m ∷ ns) ≡ some ms)
          × (length ms ≡ length (m ∷ ns))
          × (drop_last ms ≡ drop_last (m ∷ ns))
        → (ms : List ℕ) × (update_last f (n ∷ m ∷ ns) ≡ some ms)
          × (length ms ≡ length (n ∷ m ∷ ns))
          × (drop_last ms ≡ drop_last (n ∷ m ∷ ns))
    go ([], e, l, d) = absurd (omega (arith, l))
    go (k ∷ ms, e, l, d) = (n ∷ k ∷ ms, rw e refl, ap suc l, ap (λ xs. n ∷ xs) d)

pub incremented-returns :
    (id : ScopedId)
    → 1 ≤ length id.indices
    → (id' : ScopedId) × (incremented id ≡ some id')
      × (length id'.indices ≡ length id.indices)
      × (popped id' ≡ popped id)
unfolding incremented popped
incremented-returns id h =
    let (ms, e, l, d) = update_last-returns (λ n. (n + 1) % u16_mod) id.indices h in
    (record { indices = ms }, rw e refl, l, ap (λ ns. record { indices = ns }) d)

pub length-pushed : (id : ScopedId) → length (pushed id).indices ≡ length id.indices + 1
unfolding pushed
length-pushed id = length-append id.indices (0 ∷ [])

length-drop_last : (ns : List ℕ) → length (drop_last ns) ≡ length ns - 1
unfolding drop_last
length-drop_last [] = refl
length-drop_last (n ∷ []) = refl
length-drop_last (n ∷ m ∷ ns) = omega (arith, length-drop_last (m ∷ ns))

pub length-popped : (id : ScopedId) → length (popped id).indices ≡ length id.indices - 1
unfolding popped
length-popped id = length-drop_last id.indices

-- The current id goes on to the next one.
pub Grows-id :
    (f : Frame) (id : ScopedId)
    → Ready f
    → length id.indices ≡ length f.id.indices
    → Grows f (record f { id = id })
Grows-id f id (known, deep, long) e = record {
  ready = (known, deep, omega (arith, e, long));
  deeper = omega arith;
  longer = omega (arith, e);
}

pub Grows-entered :
    (f : Frame) (es : List CheckerError)
    → Ready f
    → Grows f (record { errors = es; builder = new_scope f.builder; id = pushed f.id })
unfolding lookup
Grows-entered f es (known, deep, long) = record {
  ready = ((λ key id found. cc, known), omega arith, omega (arith, length-pushed f.id));
  deeper = omega arith;
  longer = omega (arith, length-pushed f.id);
}

pub Grows-pushed :
    (f : Frame) (es : List CheckerError)
    → Ready f
    → Grows f (record f { errors = es; id = pushed f.id })
Grows-pushed f es (known, deep, long) = record {
  ready = (known, deep, omega (arith, length-pushed f.id));
  deeper = omega arith;
  longer = omega (arith, length-pushed f.id);
}

length-below : (ms : List (Map Text ScopedId)) → length (below ms) ≡ length ms - 1
length-below [] = refl
length-below (m ∷ ms) = omega arith

-- The way back out of a scope.
pub Grows-left :
    (f g : Frame)
    → Ready f
    → Grows (record f { builder = new_scope f.builder; id = pushed f.id }) g
    → (id : ScopedId) × (incremented (popped g.id) ≡ some id)
      × Grows f (record g { builder = pop g.builder; id = id })
Grows-left f g (known, deep, long) grown =
    let (ready, deeper, longer) = grown.ready in
    let (id, e, l, d) =
      incremented-returns (popped g.id)
        (omega (arith, long, grown.longer, length-pushed f.id, length-popped g.id)) in
    (
      id,
      e,
      record {
        ready = (
          AllKnown-below g.builder.defined g.builder.scopes ready,
          omega (arith, deep, grown.deeper, length-below g.builder.scopes),
          omega (arith, long, grown.longer, length-pushed f.id, length-popped g.id, l),
        );
        deeper = omega (arith, grown.deeper, length-below g.builder.scopes);
        longer = omega (arith, grown.longer, length-pushed f.id, length-popped g.id, l);
      },
    )

-- The way back from an id that was pushed without a scope.
pub Grows-unnested :
    (f g : Frame)
    → Ready f
    → Grows (record f { id = pushed f.id }) g
    → (id : ScopedId) × (incremented (popped g.id) ≡ some id) × Grows f (record g { id = id })
Grows-unnested f g (known, deep, long) grown =
    let (ready, deeper, longer) = grown.ready in
    let (id, e, l, d) =
      incremented-returns (popped g.id)
        (omega (arith, long, grown.longer, length-pushed f.id, length-popped g.id)) in
    (
      id,
      e,
      record {
        ready = (
          ready,
          omega (arith, deeper),
          omega (arith, long, grown.longer, length-pushed f.id, length-popped g.id, l),
        );
        deeper = omega (arith, grown.deeper);
        longer = omega (arith, grown.longer, length-pushed f.id, length-popped g.id, l);
      },
    )

pub Grows-errors :
    (f : Frame) (es : List CheckerError) → Ready f → Grows f (record f { errors = es })
Grows-errors f es r = record { ready = r; deeper = omega arith; longer = omega arith }

pub Grows-local :
    (f : Frame) (key : Text) (id : ScopedId) (sp : Span)
    → Ready f
    → (b : NameScopeBuilder) × (define_local key id sp f.builder ≡ some b)
      × Grows f (record f { builder = b })
      × (below b.scopes ≡ below f.builder.scopes)
Grows-local f key id sp (known, deep, long) =
    let (b, e, k, l, same) = define_local-returns key id sp f.builder known deep in
    (
      b,
      e,
      record {
        ready = (k, omega (arith, l, deep), long);
        deeper = omega (arith, l);
        longer = omega arith;
      },
      same,
    )

pub Grows-global :
    (f : Frame) (key : Text) (id : ScopedId) (sp : Span)
    → Ready f
    → (b : NameScopeBuilder) × (define_global key id sp f.builder ≡ some b)
      × Grows f (record f { builder = b })
Grows-global f key id sp (known, deep, long) =
    let (b, e, k, l) = define_global-returns key id sp f.builder known deep in
    (
      b,
      e,
      record {
        ready = (k, omega (arith, l, deep), long);
        deeper = omega (arith, l);
        longer = omega arith;
      },
    )

-- A scope is taken off where there are two.
pub Ready-pop :
    (f : Frame) (id : ScopedId)
    → Ready f
    → 2 ≤ length f.builder.scopes
    → 1 ≤ length id.indices
    → Ready (record f { builder = pop f.builder; id = id })
Ready-pop f id (known, deep, long) h h' = (
  AllKnown-below f.builder.defined f.builder.scopes known,
  omega (arith, h, length-below f.builder.scopes),
  h',
)

pub length-pop : (b : NameScopeBuilder) → length (pop b).scopes ≡ length b.scopes - 1
length-pop b = length-below b.scopes
