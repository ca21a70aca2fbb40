-- ===== src/Lex/TextIter.antt =====
-- src/lex/textiter.rs: `PeekTextIter`, the characters that are left and the position of the first.
use protosnirk.Prelude.{ℕ, ◌+◌, ◌-◌, Option, none, some, [], ◌∷◌, Text, ltb, ◌==◌, if◌then◌else◌}
use protosnirk.Lex.Span.{Location, u32_mod, origin}

-- `u32::saturating_add(1)`.
abbrev pub saturating_suc : ℕ → ℕ
saturating_suc n = if ltb n (u32_mod - 1) then n + 1 else n

-- The counters `current_char`, `current_line` and `current_column` are those of the location.
pub record TextIter : Type 0 where
  pub chars : Text
  pub location : Location

abbrev pub new : Text → TextIter
new text = record { chars = text; location = origin }

abbrev pub peek_chars : Text → Option ℕ
peek_chars [] = none
peek_chars (c ∷ cs) = some c

-- `TextIter::peek`.
abbrev pub peek : TextIter → Option ℕ
peek it = peek_chars it.chars

-- The position after one more character.
abbrev pub past : ℕ → Location → Location
past c l =
    if c == b'\n'
    then record { index = saturating_suc l.index; line = saturating_suc l.line; column = 0 }
    else record { index = saturating_suc l.index; line = l.line; column = saturating_suc l.column }

-- The iterator after `Iterator::next`. At the end of the text only the index grows.
abbrev pub next_at : Text → Location → TextIter
next_at [] l = record { chars = []; location = record l { index = saturating_suc l.index } }
next_at (c ∷ cs) l = record { chars = cs; location = past c l }

abbrev pub next : TextIter → TextIter
next it = next_at it.chars it.location
