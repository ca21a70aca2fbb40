-- ===== src/Lex/Tokenizer/Symbol/Consumes.antt =====
-- src/lex/tokenizer.rs: how much of the text `parse_symbol` consumes.
use protosnirk.Prelude.{
  ℕ, ◌+◌, ◌≤◌, ◌<◌, ◌≡◌, true, [], ◌∷◌, ◌++◌, Text, codes, length, length-append, starts_with,
  byte_len, pop_char, text_eq, ◌==◌, arith, Bool-cases, inl, inr,
}
use protosnirk.Lex.Span.{Location}
use protosnirk.Lex.TextIter.{past}
use protosnirk.Lex.Tokenizer.Progress.{take_while-le, skip_while-le}
use protosnirk.Lex.Tokenizer.Symbol.{
  SymbolEnd, broken, symbol_loop, unmatched, rule_of, not_newline,
}

abbrev pub NotBroken : SymbolEnd → Type 0
NotBroken (broken p) = ⊥
NotBroken _ = Unit

unmatched_nil : NotBroken (unmatched []) → ⊥
unfolding unmatched pop_char text_eq
unmatched_nil h = h

unmatched_single : (c : ℕ) → NotBroken (unmatched (c ∷ [])) → ⊥
unfolding unmatched pop_char text_eq
unmatched_single c h = elim (Bool-cases (byte_len (c ∷ []) == 1)) [
  | inl e ↦ rw e at h
  | inr e ↦ rw e at h
]

starts_with_slashes : (sym : Text) → starts_with (codes "//") sym ≡ true → 2 ≤ length sym
unfolding starts_with
starts_with_slashes [] h = cc
starts_with_slashes (a ∷ []) h = ground arith
starts_with_slashes (a ∷ b ∷ s) h = omega arith

starts_with_doc : (sym : Text) → starts_with (codes "///") sym ≡ true → 2 ≤ length sym
unfolding starts_with
starts_with_doc [] h = cc
starts_with_doc (a ∷ []) h = ground arith
starts_with_doc (a ∷ b ∷ s) h = omega arith

unmatched-NotBroken : (sym : Text) → NotBroken (unmatched sym) → 2 ≤ length sym
unmatched-NotBroken [] h = absurd (unmatched_nil h)
unmatched-NotBroken (c ∷ []) h = absurd (unmatched_single c h)
unmatched-NotBroken (c ∷ d ∷ s) h = omega arith

symbol_loop_nil : (l : Location) → NotBroken (symbol_loop [] [] l).0 → ⊥
unfolding symbol_loop rule_of starts_with unmatched text_eq pop_char
symbol_loop_nil l h = h

-- What was consumed, `sym`, and what is left make up the text that the loop began with, so a loop
-- that ends in a token or a comment has consumed a character.
pub symbol_loop-lt :
    (sym cs : Text) (l : Location)
    → NotBroken (symbol_loop sym cs l).0
    → length (symbol_loop sym cs l).1.chars < length sym + length cs
unfolding symbol_loop
symbol_loop-lt [] [] l h = absurd (symbol_loop_nil l h)
symbol_loop-lt (a ∷ sym) [] l h = ground arith
symbol_loop-lt sym (c ∷ cs) l h = ground (
  arith,
  symbol_loop-lt (sym ++ c ∷ []) cs (past c l),
  length-append sym (c ∷ []),
  starts_with_slashes (sym ++ c ∷ []),
  unmatched-NotBroken (sym ++ c ∷ []),
  take_while-le not_newline (c ∷ cs) l (sym ++ c ∷ []),
  skip_while-le not_newline (c ∷ cs) l,
  starts_with_doc (sym ++ c ∷ []),
)
