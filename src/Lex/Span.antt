-- ===== src/Lex/Span.antt =====
-- src/lex/span.rs: locations in a text, and spans between two of them. The counters are `u32`:
-- sums and differences wrap.
use protosnirk.Prelude.{ℕ, ◌+◌, ◌-◌, ◌%◌, ◌^◌, Bool, ltb}

abbrev pub u32_mod : ℕ
u32_mod = 2 ^ 32

pub record Location : Type 0 where
  pub index : ℕ
  pub line : ℕ
  pub column : ℕ

-- `Location::default`, and `Location::of().build()`.
abbrev pub origin : Location
origin = record { index = 0; line = 0; column = 0 }

-- `Location::offset`.
abbrev pub offset : Location → ℕ → Location
offset l n = record {
  index = (l.index + n) % u32_mod;
  line = l.line;
  column = (l.column + n) % u32_mod;
}

pub record Span : Type 0 where
  pub start : Location
  pub end : Location

-- `Span::from(start ..= end)` on locations.
abbrev pub between : Location → Location → Span
between a b = record { start = a; end = b }

-- `Span::from(first ..= last)` on spans.
abbrev pub joined : Span → Span → Span
joined a b = record { start = a.start; end = b.end }

-- `Span::from_location`.
abbrev pub from_location : Location → ℕ → Span
from_location a n = record {
  start = a;
  end = record {
    index = (a.index + n) % u32_mod;
    line = a.line;
    column = (a.column + n) % u32_mod;
  };
}

-- `Span::len` and `Span::chars`.
abbrev pub len : Span → ℕ
len s = (s.end.index + u32_mod - s.start.index) % u32_mod

-- `Span::lines`.
abbrev pub lines : Span → ℕ
lines s = (s.end.line + u32_mod - s.start.line) % u32_mod

abbrev pub is_multiline : Span → Bool
is_multiline s = ltb 0 (lines s)

abbrev pub is_multichar : Span → Bool
is_multichar s = ltb 0 (len s)
