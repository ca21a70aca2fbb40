-- ===== src/Lex/Tokenizer/Handlers/Ends.antt =====
-- src/lex/tokenizer.rs: the state behind a handler that gives `EOF`.
use protosnirk.Prelude.{
  ℕ, ◌≡◌, refl, Bool, true, false, Option, none, some, List, [], ◌∷◌, Text, arith, if◌then◌else◌,
}
use protosnirk.Lex.Span.{Location}
use protosnirk.Lex.TextIter.{TextIter, peek, next}
use protosnirk.Lex.Token.{Token, TokenData, eof}
use protosnirk.Lex.Tokenizer.Chars.{CharClasses, skip_while, count_spaces, char_is_spacing}
use protosnirk.Lex.Tokenizer.Symbol.{SymbolEnd, symbol_token, comment, broken}
use protosnirk.Lex.Tokenizer.Handlers.{
  Panic, Tokenizer, Control, give, goto, crash, with_state, Handler, start, indent, line, outdent,
  TokenizerState, reached_eof, dispatch, next_eof, next_outdent, next_indent, next_line,
  parse_symbol, parse_keyword_or_ident, parse_float_literal, eof_on, outdent_on, indent_on, line_on,
  word_token, symbol_end, float_decimal, float_exponent, after_cr, next_in,
}

-- The state behind an `EOF` token.
pub record AtEnd (t : Token) (z : Tokenizer) : Type 0 where
  pub state : z.tokenizer_state ≡ reached_eof
  pub again : next_eof z ≡ give t z

pub data Rests : Control → Type 0 where
  gives : {t : Token} {z : Tokenizer} → (t.kind ≡ eof → AtEnd t z) → Rests (give t z)
  goes : {h : Handler} {z : Tokenizer} → Rests (goto h z)
  crashes : {p : Panic} → Rests (crash p)

Rests-if : (b : Bool) {x y : Control} → Rests x → Rests y → Rests (if b then x else y)
Rests-if true hx hy = hx
Rests-if false hx hy = hy

abbrev is_eof : TokenData → Bool
is_eof eof = true
is_eof _ = false

-- A token of another kind.
lives : {t : Token} {z : Tokenizer} → is_eof t.kind ≡ false → Rests (give t z)
lives n = gives λ e. absurd (other _ n e)
  where
    other : (k : TokenData) → is_eof k ≡ false → k ≡ eof → ⊥
    other eof n e = cc
    other _ n e = cc

eof_on-Rests :
    (stack : List ℕ) (z : Tokenizer)
    → z.indent_size_stack ≡ stack
    → z.tokenizer_state ≡ reached_eof
    → Rests (eof_on stack z)
unfolding eof_on next_eof
eof_on-Rests [] z e s = gives λ _. record { state = s; again = rw e }
eof_on-Rests (x ∷ []) z e s = gives λ _. record { state = s; again = rw e }
eof_on-Rests (x ∷ y ∷ r) z e s = lives refl

next_eof-Rests : (z : Tokenizer) → z.tokenizer_state ≡ reached_eof → Rests (next_eof z)
unfolding next_eof
next_eof-Rests z s = eof_on-Rests z.indent_size_stack z refl s

outdent_on-Rests : (stack : List ℕ) (z : Tokenizer) → Rests (outdent_on stack z)
unfolding outdent_on
outdent_on-Rests [] z = Rests-if _ (lives refl) goes
outdent_on-Rests (x ∷ []) z = Rests-if _ (lives refl) goes
outdent_on-Rests (x ∷ y ∷ r) z = Rests-if _ (lives refl) goes

indent_on-Rests : (stack : List ℕ) (n : ℕ) (z : Tokenizer) → Rests (indent_on stack n z)
unfolding indent_on
indent_on-Rests [] n z = crashes
indent_on-Rests (x ∷ r) n z = Rests-if _ goes (Rests-if _ (lives refl) goes)

is_eof-word_token :
    (is_kw : Bool) (text : Text) (l : Location) → is_eof (word_token is_kw text l).kind ≡ false
unfolding word_token
is_eof-word_token is_kw text l = ground arith

symbol_end-Rests : (e : SymbolEnd) (l : Location) (z : Tokenizer) → Rests (symbol_end e l z)
unfolding symbol_end
symbol_end-Rests (symbol_token s) l z = lives refl
symbol_end-Rests comment l z = goes
symbol_end-Rests (broken p) l z = crashes

module _ (u : CharClasses) (z : Tokenizer) where
  float_exponent-Rests :
      (digits : Text) (l : Location) (it : TextIter) → Rests (float_exponent u digits l it z)
  unfolding float_exponent
  float_exponent-Rests digits l it = Rests-if _ (lives refl) (Rests-if _ crashes (lives refl))

  float_decimal-Rests :
      (digits : Text) (l : Location) (it : TextIter) → Rests (float_decimal u digits l it z)
  unfolding float_decimal
  float_decimal-Rests digits l it =
      Rests-if _ (float_exponent-Rests digits l it)
        (Rests-if _ crashes (float_exponent-Rests _ l _))

  after_cr-Rests : Rests (after_cr z)
  unfolding after_cr
  after_cr-Rests = go (peek (next z.iter)) refl
    where
      go : (o : Option ℕ) → peek (next z.iter) ≡ o → Rests (after_cr z)
      go none e = rw (e, after_cr) crashes
      go (some c) e = rw (e, after_cr) (Rests-if _ goes crashes)

  parse_keyword_or_ident-Rests : Rests (parse_keyword_or_ident u z)
  unfolding parse_keyword_or_ident
  parse_keyword_or_ident-Rests = lives (is_eof-word_token _ _ _)

  line_on-Rests : (c : ℕ) → Rests (line_on u c z)
  unfolding line_on parse_float_literal parse_symbol
  line_on-Rests c = Rests-if _ after_cr-Rests (
      Rests-if _ goes (
        Rests-if _ (float_decimal-Rests _ _ _)
          (Rests-if _ parse_keyword_or_ident-Rests (Rests-if _ (symbol_end-Rests _ _ _) crashes))))

next_indent-Rests : (z : Tokenizer) → Rests (next_indent z)
unfolding next_indent
next_indent-Rests z = go (peek z.iter) refl
  where
    go : (o : Option ℕ) → peek z.iter ≡ o → Rests (next_indent z)
    go none e = rw (e, next_indent) (next_eof-Rests (with_state reached_eof z) refl)
    go (some c) e =
        let (spaces, it) = count_spaces z.iter.chars z.iter.location 0 in
        rw (e, next_indent) (indent_on-Rests z.indent_size_stack spaces (record z { iter = it }))

next_line-Rests : (u : CharClasses) (z : Tokenizer) → Rests (next_line u z)
unfolding next_line
next_line-Rests u z = go (peek it) refl
  where
    it : TextIter
    it = skip_while char_is_spacing z.iter.chars z.iter.location

    go : (o : Option ℕ) → peek it ≡ o → Rests (next_line u z)
    go none e =
        rw (e, next_line)
          (next_eof-Rests (record z { tokenizer_state = reached_eof; iter = it }) refl)
    go (some c) e = rw (e, next_line) (line_on-Rests u (record z { iter = it }) c)

next_in-Rests : (s : TokenizerState) (z : Tokenizer) → z.tokenizer_state ≡ s → Rests (next_in s z)
unfolding next_in
next_in-Rests reached_eof z e = next_eof-Rests z e
next_in-Rests _ z e = goes

pub dispatch-Rests : (u : CharClasses) (h : Handler) (z : Tokenizer) → Rests (dispatch u h z)
unfolding dispatch next_outdent
dispatch-Rests u start z = next_in-Rests z.tokenizer_state z refl
dispatch-Rests u indent z = next_indent-Rests z
dispatch-Rests u line z = next_line-Rests u z
dispatch-Rests u outdent z = outdent_on-Rests z.indent_size_stack z
