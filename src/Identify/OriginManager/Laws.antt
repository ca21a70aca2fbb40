-- ===== src/Identify/OriginManager/Laws.antt =====
-- src/identify/names/origin_manager.rs: what a visitor does with the stack of sources.
use protosnirk.Prelude.{◌≡◌, refl, ap, ◌∙◌, true, some}
use protosnirk.Ast.Index.{ScopedId}
use protosnirk.Identify.OriginManager.{
  OriginManager, add_source, begin_block, end_block, pop_source,
}

-- What a visitor does that takes off each source that it adds, and ends each block that it begins.
pub data Uses : OriginManager → OriginManager → Type 0 where
  here : {m : OriginManager} → Uses m m
  source :
      {m n o : OriginManager} (s : ScopedId)
      → Uses (add_source s m) n
      → Uses (pop_source n).1 o
      → Uses m o
  block : {m n o : OriginManager} → Uses (begin_block m) n → Uses (end_block n).1 o → Uses m o

Uses-eq : {m n : OriginManager} → Uses m n → n ≡ m
Uses-eq here = refl
Uses-eq (source s v w) = Uses-eq w ∙ ap (λ x. (pop_source x).1) (Uses-eq v)
Uses-eq (block v w) = Uses-eq w ∙ ap (λ x. (end_block x).1) (Uses-eq v)

-- A visitor that takes off each source that it adds, and ends each block that it begins, gets from
-- `pop_source` the source that it added, and from `end_block` that the block did not return, and
-- has behind either the sources that it had in front.
pub Uses_lem :
    (s : ScopedId) {m n k : OriginManager}
    → Uses (add_source s m) n
    → Uses (begin_block m) k
    → (pop_source n ≡ (some s, m)) × (end_block k ≡ (true, m))
Uses_lem s v w = (ap pop_source (Uses-eq v), ap end_block (Uses-eq w))
