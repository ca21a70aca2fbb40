-- ===== src/Lex/Tokenizer/Handlers.antt =====
-- src/lex/tokenizer.rs: the state of `IterTokenizer` and its handlers.
pub mod Blocks
pub mod Indents
pub mod Work
pub mod LineFalls
pub mod Falls
pub mod Ends
pub mod Types
use protosnirk.Prelude.{
  ℕ, ◌+◌, ◌-◌, ◌%◌, Bool, true, not, ◌&&◌, ◌||◌, none, some, List, [], ◌∷◌, ◌++◌, Text, codes,
  text_eq, ltb, ◌==◌, if◌then◌else◌,
}
use protosnirk.Lex.Span.{Location, u32_mod}
use protosnirk.Lex.TextIter
use protosnirk.Lex.TextIter.{TextIter, peek, peek_chars, next}
use protosnirk.Lex.Token
use protosnirk.Lex.Token.{
  Token, new_ident, new_indent, new_outdent, new_eof, number_literal, bool_literal, keyword, symbol,
}
use protosnirk.Lex.Tokens.{is_keyword}
use protosnirk.Lex.Tokenizer.Chars.{
  CharClasses, char_is_spacing, char_is_symbol, take_while, skip_while, count_spaces, take_ident,
}
use protosnirk.Lex.Tokenizer.Symbol.{
  SymbolEnd, SymbolPanic, symbol_token, comment, broken, symbol_loop,
}

pub data TokenizerState : Type 0 where
  looking_for_indent looking_for_newline emitting_outdents reached_eof : TokenizerState

-- `indent_size_stack` has its top first. The tables of keywords and symbols are those of
-- `Lex.Tokens`.
pub record Tokenizer : Type 0 where
  pub expected_indent_length : ℕ
  pub expected_indent_spaces : Bool
  pub tokenizer_state : TokenizerState
  pub indent_size_stack : List ℕ
  pub iter : TextIter

-- `IterTokenizer::new`.
abbrev pub new_tokenizer : Text → Tokenizer
new_tokenizer text = record {
  expected_indent_length = 0;
  expected_indent_spaces = true;
  tokenizer_state = looking_for_newline;
  indent_size_stack = 0 ∷ [];
  iter = TextIter.new text;
}

-- The panics of the tokenizer, one for each place.
pub data Panic : Type 0 where
  missing_indent hanging_cr bad_control unknown_character bad_decimal bad_exponent : Panic
  bad_symbol : SymbolPanic → Panic

pub data Handler : Type 0 where
  start indent line outdent : Handler

-- A handler returns a token, goes on in another handler, or panics.
pub data Control : Type 0 where
  give : Token → Tokenizer → Control
  goto : Handler → Tokenizer → Control
  crash : Panic → Control

abbrev pub with_state : TokenizerState → Tokenizer → Tokenizer
with_state s z = record z { tokenizer_state = s }

-- `next_eof`, on the stack.
unfoldable pub eof_on : List ℕ → Tokenizer → Control
eof_on (top ∷ below ∷ rest) z =
    give (new_outdent z.iter.location) (record z { indent_size_stack = below ∷ rest })
eof_on _ z = give (new_eof z.iter.location) z

unfoldable pub next_eof : Tokenizer → Control
next_eof z = eof_on z.indent_size_stack z

-- `next_outdent`, on the stack.
unfoldable pub outdent_on : List ℕ → Tokenizer → Control
outdent_on (last ∷ below ∷ rest) z =
    let l = z.iter.location in
    if ltb l.column last
    then give
        (new_outdent (record {
          index = (l.index + (last - l.column)) % u32_mod;
          line = l.line;
          column = last;
        }))
        (record z { indent_size_stack = below ∷ rest })
    else goto line (with_state looking_for_newline z)
outdent_on stack z =
    if ltb 0 z.iter.location.column
    then give (new_indent z.iter.location) (record z {
      tokenizer_state = looking_for_newline;
      indent_size_stack = z.iter.location.column ∷ stack;
    })
    else goto line (with_state looking_for_newline z)

unfoldable pub next_outdent : Tokenizer → Control
next_outdent z = outdent_on z.indent_size_stack z

-- The comparison at the end of `next_indent`.
unfoldable pub indent_on : List ℕ → ℕ → Tokenizer → Control
indent_on [] spaces z = crash missing_indent
indent_on (current ∷ rest) spaces z =
    if spaces == current
    then goto line (with_state looking_for_newline z)
    else if ltb current spaces
    then give (new_indent z.iter.location) (record z {
      tokenizer_state = looking_for_newline;
      indent_size_stack = spaces ∷ current ∷ rest;
    })
    else goto outdent (with_state emitting_outdents z)

unfoldable pub next_indent : Tokenizer → Control
next_indent z = elim (peek z.iter) [
  | none ↦ next_eof (with_state reached_eof z)
  | some c ↦
      let (spaces, it) = count_spaces z.iter.chars z.iter.location 0 in
      indent_on z.indent_size_stack spaces (record z { iter = it })
]

-- `peek().unwrap_or(' ')`.
abbrev pub peek_or_space : TextIter → ℕ
peek_or_space it = elim (peek it) [ none ↦ b' ' | some c ↦ c ]

-- The end of `parse_float_literal`: the exponent. The character after the digits is `e` or `E`.
unfoldable pub float_exponent : CharClasses → Text → Location → TextIter → Tokenizer → Control
float_exponent u digits l it z =
    let e = peek_or_space it in
    if not (e == b'e') && not (e == b'E')
    then give (Token.new digits l number_literal) (record z { iter = it })
    else if not (u.is_number (peek_or_space (next it)))
    then crash bad_exponent
    else let (all, it') =
        take_while u.is_number (next it).chars (next it).location (digits ++ e ∷ []) in
      give (Token.new all l number_literal) (record z { iter = it' })

unfoldable pub float_decimal : CharClasses → Text → Location → TextIter → Tokenizer → Control
float_decimal u whole l it z =
    if not (peek_or_space it == b'.')
    then float_exponent u whole l it z
    else if not (u.is_number (peek_or_space (next it)))
    then crash bad_decimal
    else let (digits, it') =
        take_while u.is_number (next it).chars (next it).location (whole ++ b'.' ∷ []) in
      float_exponent u digits l it' z

unfoldable pub parse_float_literal : CharClasses → Tokenizer → Control
parse_float_literal u z =
    let (whole, it) = take_while u.is_number z.iter.chars z.iter.location [] in
    float_decimal u whole z.iter.location it z

-- The token for the text of a word.
unfoldable pub word_token : Bool → Text → Location → Token
word_token is_kw text l =
    if is_kw && is_keyword text
    then Token.new text l keyword
    else if text_eq text (codes "true") || text_eq text (codes "false")
    then Token.new text l bool_literal
    else new_ident text l

unfoldable pub parse_keyword_or_ident : CharClasses → Tokenizer → Control
parse_keyword_or_ident u z =
    let (is_kw, text, it) = take_ident u true z.iter.chars z.iter.location [] in
    give (word_token is_kw text z.iter.location) (record z { iter = it })

unfoldable pub symbol_end : SymbolEnd → Location → Tokenizer → Control
symbol_end (symbol_token sym) l z = give (Token.new sym l symbol) z
symbol_end comment l z = goto start z
symbol_end (broken p) l z = crash (bad_symbol p)

unfoldable pub parse_symbol : Tokenizer → Control
parse_symbol z =
    let (sym, it) = symbol_loop [] z.iter.chars z.iter.location in
    symbol_end sym z.iter.location (record z { iter = it })

-- The rest of `next_line` behind the spacing, on the character that is peeked.
unfoldable pub after_cr : Tokenizer → Control
after_cr z = elim (peek (next z.iter)) [
  | none ↦ crash hanging_cr
  | some c ↦
      if c == b'\n'
      then goto indent
          (record z { tokenizer_state = looking_for_indent; iter = next (next z.iter) })
      else crash bad_control
]

unfoldable pub line_on : CharClasses → ℕ → Tokenizer → Control
line_on u c z =
    if c == b'\r'
    then after_cr z
    else if c == b'\n'
    then goto indent (record z { tokenizer_state = looking_for_indent; iter = next z.iter })
    else if u.is_number c
    then parse_float_literal u z
    else if c == b'_' || u.is_letter c
    then parse_keyword_or_ident u z
    else if char_is_symbol u c
    then parse_symbol z
    else crash unknown_character

unfoldable pub next_line : CharClasses → Tokenizer → Control
next_line u z =
    let it = skip_while char_is_spacing z.iter.chars z.iter.location in
    elim (peek it) [
      | none ↦ next_eof (record z { tokenizer_state = reached_eof; iter = it })
      | some c ↦ line_on u c (record z { iter = it })
    ]

-- `next`, on the state.
unfoldable pub next_in : TokenizerState → Tokenizer → Control
next_in looking_for_indent z = goto indent z
next_in looking_for_newline z = goto line z
next_in emitting_outdents z = goto outdent z
next_in reached_eof z = next_eof z

unfoldable pub dispatch : CharClasses → Handler → Tokenizer → Control
dispatch u start z = next_in z.tokenizer_state z
dispatch u indent z = next_indent z
dispatch u line z = next_line u z
dispatch u outdent z = next_outdent z
