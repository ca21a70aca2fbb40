-- ===== src/Lex/Tokenizer/Handlers/Types.antt =====
-- src/lex/tokenizer.rs: the types of the tokens that a handler gives.
use protosnirk.Prelude.{
  ℕ, ◌≡◌, ◌≢◌, refl, Bool, true, false, Option, none, some, List, [], ◌∷◌, Text, arith,
  if◌then◌else◌,
}
use protosnirk.Lex.Span.{Location}
use protosnirk.Lex.TextIter.{TextIter, peek, next}
use protosnirk.Lex.Token.{Token, TokenData, number_literal, bool_literal, symbol}
use protosnirk.Lex.Tokenizer.Chars.{CharClasses, skip_while, count_spaces, char_is_spacing}
use protosnirk.Lex.Tokenizer.Symbol.{SymbolEnd, symbol_token, comment, broken}
use protosnirk.Lex.Tokenizer.Handlers.{
  Panic, Tokenizer, Control, give, goto, crash, with_state, Handler, start, indent, line, outdent,
  TokenizerState, reached_eof, dispatch, next_eof, next_outdent, next_indent, next_line,
  parse_symbol, parse_keyword_or_ident, parse_float_literal, eof_on, outdent_on, indent_on, line_on,
  word_token, symbol_end, float_decimal, float_exponent, after_cr, next_in,
}
use protosnirk.Lex.Tokens.{
  TokenType, get_type, type_of, partial, is_keyword, literal, ident, begin_block, end_block, eof,
}
use protosnirk.Lex.Tokenizer.Symbol.{rule_of}
use protosnirk.Lex.Tokenizer.Symbol.Types.{symbol_loop-typed}

-- What a token without a type is: a partial symbol at the end of the text.
pub record IsCut (t : Token) (z : Tokenizer) : Type 0 where
  pub kind : t.kind ≡ symbol
  pub rule : rule_of t.text ≡ some partial
  pub ended : z.iter.chars ≡ []

pub data Types : Control → Type 0 where
  gives : {t : Token} {z : Tokenizer} → (get_type t ≡ none → IsCut t z) → Types (give t z)
  goes : {h : Handler} {z : Tokenizer} → Types (goto h z)
  crashes : {p : Panic} → Types (crash p)

Types-if : (b : Bool) {x y : Control} → Types x → Types y → Types (if b then x else y)
Types-if true hx hy = hx
Types-if false hx hy = hy

-- The type of a token that is neither a word of the tables nor a symbol.
abbrev plain_type : TokenData → Option TokenType
plain_type number_literal = some literal
plain_type bool_literal = some literal
plain_type TokenData.ident = some ident
plain_type TokenData.begin_block = some begin_block
plain_type TokenData.end_block = some end_block
plain_type TokenData.eof = some eof
plain_type _ = none

type_of-plain :
    (k : TokenData) (text : Text) (ty : TokenType)
    → plain_type k ≡ some ty
    → type_of k text ≡ some ty
unfolding type_of
type_of-plain number_literal text ty h = h
type_of-plain bool_literal text ty h = h
type_of-plain TokenData.ident text ty h = h
type_of-plain TokenData.begin_block text ty h = h
type_of-plain TokenData.end_block text ty h = h
type_of-plain TokenData.eof text ty h = h
type_of-plain _ text ty h = cc

plain :
    {t : Token} {z : Tokenizer} {ty : TokenType} → plain_type t.kind ≡ some ty → Types (give t z)
plain {t} {ty = ty} h = gives λ e. absurd (clash (type_of-plain t.kind t.text ty h) e)
  where
    clash : {o : Option TokenType} {ty : TokenType} → o ≡ some ty → o ≡ none → ⊥
    clash p q = cc

eof_on-Types : (stack : List ℕ) (z : Tokenizer) → Types (eof_on stack z)
unfolding eof_on
eof_on-Types [] z = plain refl
eof_on-Types (x ∷ []) z = plain refl
eof_on-Types (x ∷ y ∷ r) z = plain refl

outdent_on-Types : (stack : List ℕ) (z : Tokenizer) → Types (outdent_on stack z)
unfolding outdent_on
outdent_on-Types [] z = Types-if _ (plain refl) goes
outdent_on-Types (x ∷ []) z = Types-if _ (plain refl) goes
outdent_on-Types (x ∷ y ∷ r) z = Types-if _ (plain refl) goes

indent_on-Types : (stack : List ℕ) (n : ℕ) (z : Tokenizer) → Types (indent_on stack n z)
unfolding indent_on
indent_on-Types [] n z = crashes
indent_on-Types (x ∷ r) n z = Types-if _ goes (Types-if _ (plain refl) goes)

-- A word that is taken for a keyword is one.
get_type-word_token :
    (is_kw : Bool) (text : Text) (l : Location) → get_type (word_token is_kw text l) ≢ none
unfolding word_token is_keyword type_of
get_type-word_token is_kw text l e = ground arith

symbol_end-Types :
    (e : SymbolEnd) (l : Location) (z : Tokenizer)
    → ((s : Text)
        → e ≡ symbol_token s
        → type_of symbol s ≡ none
        → (rule_of s ≡ some partial) × (z.iter.chars ≡ []))
    → Types (symbol_end e l z)
unfolding symbol_end
symbol_end-Types (symbol_token s) l z f =
    gives λ h. record { kind = refl; rule = (f s refl h).0; ended = (f s refl h).1 }
symbol_end-Types comment l z f = goes
symbol_end-Types (broken p) l z f = crashes

module _ (u : CharClasses) (z : Tokenizer) where
  float_exponent-Types :
      (digits : Text) (l : Location) (it : TextIter) → Types (float_exponent u digits l it z)
  unfolding float_exponent
  float_exponent-Types digits l it = Types-if _ (plain refl) (Types-if _ crashes (plain refl))

  float_decimal-Types :
      (digits : Text) (l : Location) (it : TextIter) → Types (float_decimal u digits l it z)
  unfolding float_decimal
  float_decimal-Types digits l it =
      Types-if _ (float_exponent-Types digits l it)
        (Types-if _ crashes (float_exponent-Types _ l _))

  after_cr-Types : Types (after_cr z)
  unfolding after_cr
  after_cr-Types = go (peek (next z.iter)) refl
    where
      go : (o : Option ℕ) → peek (next z.iter) ≡ o → Types (after_cr z)
      go none e = rw (e, after_cr) crashes
      go (some c) e = rw (e, after_cr) (Types-if _ goes crashes)

  parse_keyword_or_ident-Types : Types (parse_keyword_or_ident u z)
  unfolding parse_keyword_or_ident
  parse_keyword_or_ident-Types = gives λ e. absurd (get_type-word_token _ _ _ e)

  parse_symbol-Types : Types (parse_symbol z)
  unfolding parse_symbol
  parse_symbol-Types = symbol_end-Types _ _ _ (symbol_loop-typed [] z.iter.chars z.iter.location)

  line_on-Types : (c : ℕ) → Types (line_on u c z)
  unfolding line_on parse_float_literal
  line_on-Types c = Types-if _ after_cr-Types (
      Types-if _ goes (
        Types-if _ (float_decimal-Types _ _ _)
          (Types-if _ parse_keyword_or_ident-Types (Types-if _ parse_symbol-Types crashes))))

next_indent-Types : (z : Tokenizer) → Types (next_indent z)
unfolding next_indent next_eof
next_indent-Types z = go (peek z.iter) refl
  where
    go : (o : Option ℕ) → peek z.iter ≡ o → Types (next_indent z)
    go none e = rw (e, next_indent) (eof_on-Types z.indent_size_stack (with_state reached_eof z))
    go (some c) e =
        let (spaces, it) = count_spaces z.iter.chars z.iter.location 0 in
        rw (e, next_indent) (indent_on-Types z.indent_size_stack spaces (record z { iter = it }))

next_line-Types : (u : CharClasses) (z : Tokenizer) → Types (next_line u z)
unfolding next_line next_eof
next_line-Types u z = go (peek it) refl
  where
    it : TextIter
    it = skip_while char_is_spacing z.iter.chars z.iter.location

    go : (o : Option ℕ) → peek it ≡ o → Types (next_line u z)
    go none e =
        rw (e, next_line)
          (eof_on-Types z.indent_size_stack (record z { tokenizer_state = reached_eof; iter = it }))
    go (some c) e = rw (e, next_line) (line_on-Types u (record z { iter = it }) c)

next_in-Types : (s : TokenizerState) (z : Tokenizer) → Types (next_in s z)
unfolding next_in next_eof
next_in-Types reached_eof z = eof_on-Types z.indent_size_stack z
next_in-Types _ z = goes

pub dispatch-Types : (u : CharClasses) (h : Handler) (z : Tokenizer) → Types (dispatch u h z)
unfolding dispatch next_outdent
dispatch-Types u start z = next_in-Types z.tokenizer_state z
dispatch-Types u indent z = next_indent-Types z
dispatch-Types u line z = next_line-Types u z
dispatch-Types u outdent z = outdent_on-Types z.indent_size_stack z
