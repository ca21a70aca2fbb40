-- ===== src/Lex/Tokenizer/Handlers/Blocks.antt =====
-- src/lex/tokenizer.rs: what tokens and handlers do to the stack of indentations.
use protosnirk.Prelude.{ℕ, ◌+◌, ◌<◌, ◌≡◌, List, [], ◌∷◌, length, ◌≢◌}
use protosnirk.Lex.Token.{Token, TokenData, begin_block, end_block, eof}
use protosnirk.Lex.Tokenizer.Handlers.{
  Panic, missing_indent, Tokenizer, Control, give, goto, crash, Handler,
}

-- The sizes fall strictly from the top down to the 0 that `new` puts there.
abbrev pub IsIndents : List ℕ → Type 0
IsIndents [] = ⊥
IsIndents (x ∷ []) = x ≡ 0
IsIndents (x ∷ y ∷ rest) = (y < x) × IsIndents (y ∷ rest)

abbrev pub opens : TokenData → ℕ
opens begin_block = 1
opens _ = 0

abbrev pub closes : TokenData → ℕ
closes end_block = 1
closes _ = 0

-- At the end of the text every block is closed.
abbrev pub OpenAtEnd : TokenData → ℕ → Type 0
OpenAtEnd eof n = n ≡ 1
OpenAtEnd _ n = Unit

pub record KeepsBlocks (before : List ℕ) (t : Token) (after : List ℕ) : Type 0 where
  pub indents : IsIndents after
  pub blocks : length after + closes t.kind ≡ length before + opens t.kind
  pub at_end : OpenAtEnd t.kind (length after)

-- What a handler owes to the stack that it was called with.
pub data KeepsIndents (before : List ℕ) : Control → Type 0 where
  gives :
      {t : Token} {z : Tokenizer}
      → KeepsBlocks before t z.indent_size_stack
      → KeepsIndents before (give t z)
  goes :
      {h : Handler} {z : Tokenizer} → z.indent_size_stack ≡ before → KeepsIndents before (goto h z)
  crashes : {p : Panic} → p ≢ missing_indent → KeepsIndents before (crash p)
