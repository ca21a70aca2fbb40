-- ===== src/Identify/OriginManager.antt =====
-- src/identify/names/origin_manager.rs: the stack of the sources that expressions return to, its
-- top first. `none` marks the statements of a block that do not return.
pub mod Laws
use protosnirk.Prelude.{Bool, true, false, Option, none, some, List, [], ◌∷◌}
use protosnirk.Ast.Index.{ScopedId, same_id}

pub record OriginManager : Type 0 where
  pub lvalues : List (Option ScopedId)

-- `OriginManager::new`
abbrev pub new : OriginManager
new = record { lvalues = [] }

abbrev pub add_source : ScopedId → OriginManager → OriginManager
add_source source m = record { lvalues = some source ∷ m.lvalues }

-- `last().and_then(…)`
abbrev pub top : List (Option ScopedId) → Option ScopedId
top [] = none
top (o ∷ os) = o

abbrev pub top_source : OriginManager → Option ScopedId
top_source m = top m.lvalues

abbrev pub has_source : OriginManager → Bool
has_source m = elim (top_source m) [ none ↦ false | some s ↦ true ]

abbrev pub has_top_source : ScopedId → OriginManager → Bool
has_top_source source m = elim (top_source m) [ none ↦ false | some s ↦ same_id s source ]

abbrev pub begin_block : OriginManager → OriginManager
begin_block m = record { lvalues = none ∷ m.lvalues }

abbrev popped_off : List (Option ScopedId) → List (Option ScopedId)
popped_off [] = []
popped_off (o ∷ os) = os

-- Whether the top was a mark.
abbrev is_mark : List (Option ScopedId) → Bool
is_mark (none ∷ os) = true
is_mark _ = false

abbrev pub end_block : OriginManager → Bool × OriginManager
end_block m = (is_mark m.lvalues, record { lvalues = popped_off m.lvalues })

-- It also takes a mark off.
abbrev pub pop_source : OriginManager → Option ScopedId × OriginManager
pop_source m = (top m.lvalues, record { lvalues = popped_off m.lvalues })
