-- ===== src/Lex/Tokenizer/Symbol.antt =====
-- src/lex/tokenizer.rs: `parse_symbol`.
pub mod Consumes
pub mod Types
pub mod Merge
use protosnirk.Prelude.{
  ℕ, Bool, not, Option, none, some, [], ◌∷◌, ◌++◌, Text, codes, byte_len, starts_with, pop_char,
  ◌==◌, if◌then◌else◌,
}
use protosnirk.Lex.Span.{Location}
use protosnirk.Lex.TextIter.{TextIter, past, next_at}
use protosnirk.Lex.Tokens.{
  Row, TokenizerSymbolRule, complete, partial, complete_prefix, default_symbols, find_symbol,
}
use protosnirk.Lex.Tokenizer.Chars.{take_while, skip_while}

-- The panics of `parse_symbol`, one for each place.
pub data SymbolPanic : Type 0 where
  no_symbol unreachable_symbol partial_symbol : SymbolPanic

pub data SymbolEnd : Type 0 where
  symbol_token : Text → SymbolEnd
  comment : SymbolEnd
  broken : SymbolPanic → SymbolEnd

unfoldable pub rule_of_row : Option Row → Option TokenizerSymbolRule
rule_of_row none = none
rule_of_row (some r) = some r.rule

unfoldable pub rule_of : Text → Option TokenizerSymbolRule
unfolding rule_of_row find_symbol default_symbols
rule_of sym = rule_of_row (find_symbol sym default_symbols)

-- The inner match: `sym` without the character that was peeked too far.
unfoldable pub stepped_past : Text → SymbolEnd
unfolding rule_of
stepped_past sym = elim (rule_of sym) [
  | none ↦ broken unreachable_symbol
  | some complete ↦ broken unreachable_symbol
  | some complete_prefix ↦ symbol_token sym
  | some partial ↦ broken partial_symbol
]

unfoldable pub unmatched : Text → SymbolEnd
unfolding stepped_past
unmatched sym = if byte_len sym == 1 then broken no_symbol else stepped_past (pop_char sym)

unfoldable pub not_newline : ℕ → Bool
not_newline c = not (c == b'\n')

-- The loop of `parse_symbol`, `sym` being what was consumed so far.
unfoldable pub symbol_loop : Text → Text → Location → SymbolEnd × TextIter
symbol_loop sym [] l =
    if starts_with (codes "//") sym
    then (comment, record { chars = []; location = l })
    else elim (rule_of sym) [
      | none ↦ (unmatched sym, record { chars = []; location = l })
      | some complete ↦ (symbol_token sym, next_at [] l)
      | some _ ↦ (symbol_token sym, record { chars = []; location = l })
    ]
symbol_loop sym (c ∷ cs) l =
    let longer = sym ++ c ∷ [] in
    if starts_with (codes "///") longer
    then (comment, (take_while not_newline (c ∷ cs) l longer).1)
    else if starts_with (codes "//") longer
    then (comment, skip_while not_newline (c ∷ cs) l)
    else elim (rule_of longer) [
      | none ↦ (unmatched longer, record { chars = c ∷ cs; location = l })
      | some complete ↦ (symbol_token longer, record { chars = cs; location = past c l })
      | some _ ↦ symbol_loop longer cs (past c l)
    ]
