-- ===== src/Lex/Tokens.antt =====
-- src/lex/tokens.rs and src/lex/mod.rs: the tables of symbols and keywords that `declare_tokens!`
-- writes out, and the type of a token.
use protosnirk.Prelude.{
  ℕ, Bool, true, false, Option, none, some, List, [], ◌∷◌, Text, codes, text_eq, ◌==◌,
  if◌then◌else◌,
}
use protosnirk.Lex.Token.{
  Token, TokenData, number_literal, unit_literal, bool_literal, type_name, symbol,
}

pub data TokenizerSymbolRule : Type 0 where
  complete partial complete_prefix : TokenizerSymbolRule

-- The symbols, the keywords and the type names keep the order of the source.
pub data TokenType : Type 0 where
  ident literal : TokenType
  plus minus star slash equals percent left_angle right_angle : TokenType
  double_equals not_equals plus_equals minus_equals star_equals slash_equals : TokenType
  percent_equals less_than_equals greater_than_equals : TokenType
  left_paren right_paren git_merge_begin inline_arrow arrow comma colon : TokenType
  let_kw mut_kw return_kw do_kw if_kw else_kw fn_kw typedef_kw : TokenType
  int_ty bool_ty : TokenType
  begin_block end_block eof : TokenType

-- The discriminant, for the derived `==`.
abbrev pub discriminant : TokenType → ℕ
discriminant ident = 0
discriminant literal = 1
discriminant plus = 2
discriminant minus = 3
discriminant star = 4
discriminant slash = 5
discriminant equals = 6
discriminant percent = 7
discriminant left_angle = 8
discriminant right_angle = 9
discriminant double_equals = 10
discriminant not_equals = 11
discriminant plus_equals = 12
discriminant minus_equals = 13
discriminant star_equals = 14
discriminant slash_equals = 15
discriminant percent_equals = 16
discriminant less_than_equals = 17
discriminant greater_than_equals = 18
discriminant left_paren = 19
discriminant right_paren = 20
discriminant git_merge_begin = 21
discriminant inline_arrow = 22
discriminant arrow = 23
discriminant comma = 24
discriminant colon = 25
discriminant let_kw = 26
discriminant mut_kw = 27
discriminant return_kw = 28
discriminant do_kw = 29
discriminant if_kw = 30
discriminant else_kw = 31
discriminant fn_kw = 32
discriminant typedef_kw = 33
discriminant int_ty = 34
discriminant bool_ty = 35
discriminant begin_block = 36
discriminant end_block = 37
discriminant eof = 38

infix 50 ◌==ₜ◌
abbrev pub ◌==ₜ◌ : TokenType → TokenType → Bool
a ==ₜ b = discriminant a == discriminant b

-- The rows of the table: a text, the type that a token of that text has, and the symbol's rule.
-- The rows of `symparts` have no type.
abbrev pub Row : Type 0
Row = record { text : Text; type : Option TokenType; rule : TokenizerSymbolRule }

abbrev row : Text → TokenType → TokenizerSymbolRule → Row
row t ty r = record { text = t; type = some ty; rule = r }

abbrev part : Text → TokenizerSymbolRule → Row
part t r = record { text = t; type = none; rule = r }

unfoldable pub default_symbols : List Row
default_symbols =
    row (codes "+") plus complete_prefix
    ∷ row (codes "-") minus complete_prefix
    ∷ row (codes "*") star complete_prefix
    ∷ row (codes "/") slash complete_prefix
    ∷ row (codes "=") equals complete_prefix
    ∷ row (codes "%") percent complete_prefix
    ∷ row (codes "<") left_angle complete_prefix
    ∷ row (codes ">") right_angle complete_prefix
    ∷ row (codes "==") double_equals complete
    ∷ row (codes "!=") not_equals complete
    ∷ row (codes "+=") plus_equals complete
    ∷ row (codes "-=") minus_equals complete
    ∷ row (codes "*=") star_equals complete
    ∷ row (codes "/=") slash_equals complete
    ∷ row (codes "%=") percent_equals complete
    ∷ row (codes "<=") less_than_equals complete
    ∷ row (codes ">=") greater_than_equals complete
    ∷ row (codes "(") left_paren complete
    ∷ row (codes ")") right_paren complete
    ∷ row (codes "<<<<<<<") git_merge_begin complete
    ∷ row (codes "=>") inline_arrow complete
    ∷ row (codes "->") arrow complete
    ∷ row (codes ",") comma complete
    ∷ row (codes ":") colon complete
    ∷ part (codes "//") complete_prefix
    ∷ part (codes "<<") partial
    ∷ part (codes "<<<") partial
    ∷ part (codes "<<<<") partial
    ∷ part (codes "<<<<<") partial
    ∷ part (codes "!") partial
    ∷ []

-- `self.symbols.get(sym)`.
unfoldable pub find_symbol : Text → List Row → Option Row
find_symbol t [] = none
find_symbol t (r ∷ rs) = if text_eq t r.text then some r else find_symbol t rs

abbrev Named : Type 0
Named = List (Text × TokenType)

unfoldable pub keyword_table : Named
keyword_table =
    (codes "let", let_kw)
    ∷ (codes "mut", mut_kw)
    ∷ (codes "return", return_kw)
    ∷ (codes "do", do_kw)
    ∷ (codes "if", if_kw)
    ∷ (codes "else", else_kw)
    ∷ (codes "fn", fn_kw)
    ∷ (codes "typedef", typedef_kw)
    ∷ []

unfoldable pub type_name_table : Named
type_name_table = (codes "float", int_ty) ∷ (codes "bool", bool_ty) ∷ []

unfoldable pub find_named : Text → Named → Option TokenType
find_named t [] = none
find_named t ((name, ty) ∷ rest) = if text_eq t name then some ty else find_named t rest

-- `self.keywords.get(text).is_some()`.
unfoldable pub is_keyword : Text → Bool
unfolding find_named keyword_table text_eq
is_keyword t = elim (find_named t keyword_table) [ some ty ↦ true | none ↦ false ]

unfoldable pub row_type : Option Row → Option TokenType
row_type none = none
row_type (some r) = r.type

-- `Token::get_type`; `none` is its `unreachable!`.
unfoldable pub type_of : TokenData → Text → Option TokenType
unfolding find_named find_symbol row_type keyword_table type_name_table default_symbols text_eq
type_of number_literal t = some literal
type_of unit_literal t = some literal
type_of bool_literal t = some literal
type_of TokenData.ident t = some ident
type_of TokenData.begin_block t = some begin_block
type_of TokenData.end_block t = some end_block
type_of TokenData.eof t = some eof
type_of TokenData.keyword t = find_named t keyword_table
type_of symbol t = row_type (find_symbol t default_symbols)
type_of type_name t = find_named t type_name_table

abbrev pub get_type : Token → Option TokenType
get_type t = type_of t.kind t.text
