-- ===== src/Lex/Tokenizer/Handlers/Indents.antt =====
-- src/lex/tokenizer.rs: the stack of indentations behind each handler.
use protosnirk.Prelude.{
  ℕ, ◌≡◌, refl, Bool, true, false, List, [], ◌∷◌, Text, length, ◌==◌, if◌then◌else◌, arith,
  Bool-cases, inl, inr, Option, none, some, ltb, ltb→lt, ◌≢◌,
}
use protosnirk.Lex.Span.{Location}
use protosnirk.Lex.TextIter.{TextIter, peek, next}
use protosnirk.Lex.Token.{Token, TokenData, eof}
use protosnirk.Lex.Tokenizer.Chars.{
  CharClasses, take_while, skip_while, take_ident, count_spaces, char_is_spacing,
}
use protosnirk.Lex.Tokenizer.Symbol.{SymbolEnd, symbol_token, comment, broken, symbol_loop}
use protosnirk.Lex.Tokenizer.Handlers.{
  Tokenizer, Control, with_state, Handler, start, indent, line, outdent, TokenizerState,
  reached_eof, dispatch, next_eof, next_outdent, next_indent, next_line, parse_symbol,
  parse_keyword_or_ident, parse_float_literal, eof_on, outdent_on, indent_on, line_on, word_token,
  symbol_end, float_decimal, float_exponent, after_cr, next_in,
}
use protosnirk.Lex.Tokenizer.Handlers.Blocks.{
  IsIndents, opens, closes, OpenAtEnd, KeepsBlocks, KeepsIndents, gives, goes, crashes,
}

eof_on-KeepsIndents :
    (stack : List ℕ) (z : Tokenizer)
    → z.indent_size_stack ≡ stack
    → IsIndents stack
    → KeepsIndents stack (eof_on stack z)
unfolding eof_on
eof_on-KeepsIndents [] z e h = absurd h
eof_on-KeepsIndents (x ∷ []) z e h =
    gives (record { indents = rw e h; blocks = rw e (omega arith); at_end = rw e })
eof_on-KeepsIndents (x ∷ y ∷ r) z e h =
    gives (record { indents = h.1; blocks = omega arith; at_end = tt })

outdent_on-KeepsIndents :
    (stack : List ℕ) (z : Tokenizer)
    → z.indent_size_stack ≡ stack
    → IsIndents stack
    → KeepsIndents stack (outdent_on stack z)
unfolding outdent_on
outdent_on-KeepsIndents [] z e h = absurd h
outdent_on-KeepsIndents (x ∷ []) z e h = elim (Bool-cases (ltb 0 z.iter.location.column)) [
  | inl p ↦ rw p (
      gives (record {
        indents = (rw h (ltb→lt 0 z.iter.location.column p), h);
        blocks = omega arith;
        at_end = tt;
      }))
  | inr p ↦ rw p (goes e)
]
outdent_on-KeepsIndents (x ∷ y ∷ r) z e h = elim (Bool-cases (ltb z.iter.location.column x)) [
  | inl p ↦ rw p (gives (record { indents = h.1; blocks = omega arith; at_end = tt }))
  | inr p ↦ rw p (goes e)
]

indent_on-KeepsIndents :
    (stack : List ℕ) (spaces : ℕ) (z : Tokenizer)
    → z.indent_size_stack ≡ stack
    → IsIndents stack
    → KeepsIndents stack (indent_on stack spaces z)
unfolding indent_on
indent_on-KeepsIndents [] n z e h = absurd h
indent_on-KeepsIndents (x ∷ r) n z e h = elim (Bool-cases (n == x)) [
  | inl p ↦ rw p (goes e)
  | inr p ↦ elim (Bool-cases (ltb x n)) [
    | inl q ↦
        rw (p, q)
          (gives (record { indents = (ltb→lt x n q, h); blocks = omega arith; at_end = tt }))
    | inr q ↦ rw (p, q) (goes e)
  ]
]

-- A token that is no block and no end of the text leaves the stack alone.
plain-KeepsBlocks :
    (t : Token) (stack : List ℕ)
    → opens t.kind ≡ 0
    → closes t.kind ≡ 0
    → t.kind ≢ eof
    → IsIndents stack
    → KeepsBlocks stack t stack
plain-KeepsBlocks t stack o c n h = record {
  indents = h;
  blocks = omega arith;
  at_end = not_eof t.kind n;
}
  where
    not_eof : (k : TokenData) → k ≢ eof → OpenAtEnd k (length stack)
    not_eof eof n = absurd (n refl)
    not_eof _ n = tt

KeepsIndents-if :
    {stack : List ℕ} (b : Bool) {x y : Control}
    → KeepsIndents stack x
    → KeepsIndents stack y
    → KeepsIndents stack (if b then x else y)
KeepsIndents-if true hx hy = hx
KeepsIndents-if false hx hy = hy

word_token-KeepsBlocks :
    (is_kw : Bool) (text : Text) (l : Location) (stack : List ℕ)
    → IsIndents stack
    → KeepsBlocks stack (word_token is_kw text l) stack
unfolding word_token
word_token-KeepsBlocks is_kw text l stack h = ground (arith)

symbol_end-KeepsIndents :
    (e : SymbolEnd) (l : Location) (z : Tokenizer)
    → IsIndents z.indent_size_stack
    → KeepsIndents z.indent_size_stack (symbol_end e l z)
unfolding symbol_end
symbol_end-KeepsIndents (symbol_token s) l z h = gives (plain-KeepsBlocks _ _ refl refl (cc) h)
symbol_end-KeepsIndents comment l z h = goes refl
symbol_end-KeepsIndents (broken p) l z h = crashes (cc)

next_eof-KeepsIndents :
    (z : Tokenizer) → IsIndents z.indent_size_stack → KeepsIndents z.indent_size_stack (next_eof z)
unfolding next_eof
next_eof-KeepsIndents z h = eof_on-KeepsIndents z.indent_size_stack z refl h

module _ (u : CharClasses) (z : Tokenizer) (h : IsIndents z.indent_size_stack) where
  float_exponent-KeepsIndents :
      (digits : Text) (l : Location) (it : TextIter)
      → KeepsIndents z.indent_size_stack (float_exponent u digits l it z)
  unfolding float_exponent
  float_exponent-KeepsIndents digits l it =
      KeepsIndents-if _ (gives (plain-KeepsBlocks _ _ refl refl (cc) h))
        (KeepsIndents-if _ (crashes (cc)) (gives (plain-KeepsBlocks _ _ refl refl (cc) h)))

  float_decimal-KeepsIndents :
      (digits : Text) (l : Location) (it : TextIter)
      → KeepsIndents z.indent_size_stack (float_decimal u digits l it z)
  unfolding float_decimal
  float_decimal-KeepsIndents digits l it =
      KeepsIndents-if _ (float_exponent-KeepsIndents digits l it)
        (KeepsIndents-if _ (crashes (cc)) (float_exponent-KeepsIndents _ l _))

  parse_float_literal-KeepsIndents : KeepsIndents z.indent_size_stack (parse_float_literal u z)
  unfolding parse_float_literal
  parse_float_literal-KeepsIndents =
      float_decimal-KeepsIndents (take_while u.is_number z.iter.chars z.iter.location []).0
        z.iter.location (take_while u.is_number z.iter.chars z.iter.location []).1

  parse_keyword_or_ident-KeepsIndents :
      KeepsIndents z.indent_size_stack (parse_keyword_or_ident u z)
  unfolding parse_keyword_or_ident
  parse_keyword_or_ident-KeepsIndents =
      let (is_kw, text, it) = take_ident u true z.iter.chars z.iter.location [] in
      gives {z = record z { iter = it }} (word_token-KeepsBlocks is_kw text z.iter.location _ h)

  parse_symbol-KeepsIndents : KeepsIndents z.indent_size_stack (parse_symbol z)
  unfolding parse_symbol
  parse_symbol-KeepsIndents =
      let (sym, it) = symbol_loop [] z.iter.chars z.iter.location in
      symbol_end-KeepsIndents sym z.iter.location (record z { iter = it }) h

  after_cr-KeepsIndents : KeepsIndents z.indent_size_stack (after_cr z)
  unfolding after_cr
  after_cr-KeepsIndents = go (peek (next z.iter)) refl
    where
      go : (o : Option ℕ) → peek (next z.iter) ≡ o → KeepsIndents z.indent_size_stack (after_cr z)
      go none e = rw (e, after_cr) (crashes (cc))
      go (some c) e = rw (e, after_cr) (KeepsIndents-if _ (goes refl) (crashes (cc)))

  line_on-KeepsIndents : (c : ℕ) → KeepsIndents z.indent_size_stack (line_on u c z)
  unfolding line_on
  line_on-KeepsIndents c = KeepsIndents-if _ after_cr-KeepsIndents (
      KeepsIndents-if _ (goes refl) (
        KeepsIndents-if _ parse_float_literal-KeepsIndents (
          KeepsIndents-if _ parse_keyword_or_ident-KeepsIndents
            (KeepsIndents-if _ parse_symbol-KeepsIndents (crashes (cc))))))

  next_indent-KeepsIndents : KeepsIndents z.indent_size_stack (next_indent z)
  unfolding next_indent
  next_indent-KeepsIndents = go (peek z.iter) refl
    where
      go : (o : Option ℕ) → peek z.iter ≡ o → KeepsIndents z.indent_size_stack (next_indent z)
      go none e = rw (e, next_indent) (next_eof-KeepsIndents (with_state reached_eof z) h)
      go (some c) e =
          let (spaces, it) = count_spaces z.iter.chars z.iter.location 0 in
          rw (e, next_indent)
            (indent_on-KeepsIndents z.indent_size_stack spaces (record z { iter = it }) refl h)

  next_outdent-KeepsIndents : KeepsIndents z.indent_size_stack (next_outdent z)
  unfolding next_outdent
  next_outdent-KeepsIndents = outdent_on-KeepsIndents z.indent_size_stack z refl h

next_line-KeepsIndents :
    (u : CharClasses) (z : Tokenizer)
    → IsIndents z.indent_size_stack
    → KeepsIndents z.indent_size_stack (next_line u z)
unfolding next_line
next_line-KeepsIndents u z h = go (peek it) refl
  where
    it : TextIter
    it = skip_while char_is_spacing z.iter.chars z.iter.location

    go : (o : Option ℕ) → peek it ≡ o → KeepsIndents z.indent_size_stack (next_line u z)
    go none e =
        rw (e, next_line)
          (next_eof-KeepsIndents (record z { tokenizer_state = reached_eof; iter = it }) h)
    go (some c) e = rw (e, next_line) (line_on-KeepsIndents u (record z { iter = it }) h c)

next_in-KeepsIndents :
    (u : CharClasses) (s : TokenizerState) (z : Tokenizer)
    → IsIndents z.indent_size_stack
    → KeepsIndents z.indent_size_stack (next_in s z)
unfolding next_in
next_in-KeepsIndents u reached_eof z h = next_eof-KeepsIndents z h
next_in-KeepsIndents u _ z h = goes refl

pub dispatch-KeepsIndents :
    (u : CharClasses) (k : Handler) (z : Tokenizer)
    → IsIndents z.indent_size_stack
    → KeepsIndents z.indent_size_stack (dispatch u k z)
unfolding dispatch
dispatch-KeepsIndents u start z h = next_in-KeepsIndents u z.tokenizer_state z h
dispatch-KeepsIndents u indent z h = next_indent-KeepsIndents u z h
dispatch-KeepsIndents u line z h = next_line-KeepsIndents u z h
dispatch-KeepsIndents u outdent z h = next_outdent-KeepsIndents u z h
