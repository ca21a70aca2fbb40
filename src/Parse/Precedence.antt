-- ===== src/Parse/Precedence.antt =====
-- src/parse/parsers/precedence.rs.
use protosnirk.Prelude.{ℕ, Bool, ltb, if◌then◌else◌}
use protosnirk.Lex.Tokens.{
  TokenType, return_kw, equals, plus_equals, minus_equals, star_equals, slash_equals,
  percent_equals, double_equals, not_equals, left_angle, right_angle, less_than_equals,
  greater_than_equals, plus, minus, star, slash, percent, left_paren,
}

-- The order of the constructors is the derived `<`.
pub data Precedence : Type 0 where
  min ret assign equality equality_compare add_sub mul_div modulo : Precedence
  numeric_prefix not_keyword paren max : Precedence

abbrev pub level : Precedence → ℕ
level min = 0
level ret = 1
level assign = 2
level equality = 3
level equality_compare = 4
level add_sub = 5
level mul_div = 6
level modulo = 7
level numeric_prefix = 8
level not_keyword = 9
level paren = 10
level max = 11

infix 50 ◌<ₚ◌
abbrev pub ◌<ₚ◌ : Precedence → Precedence → Bool
p <ₚ q = ltb (level p) (level q)

-- `Precedence::for_token`
unfoldable pub for_token : TokenType → Bool → Precedence
for_token return_kw prefix = ret
for_token equals prefix = assign
for_token plus_equals prefix = assign
for_token minus_equals prefix = assign
for_token star_equals prefix = assign
for_token slash_equals prefix = assign
for_token percent_equals prefix = assign
for_token double_equals prefix = equality
for_token not_equals prefix = equality
for_token left_angle prefix = equality_compare
for_token right_angle prefix = equality_compare
for_token less_than_equals prefix = equality_compare
for_token greater_than_equals prefix = equality_compare
for_token plus prefix = if prefix then numeric_prefix else add_sub
for_token minus prefix = if prefix then numeric_prefix else add_sub
for_token star prefix = mul_div
for_token slash prefix = mul_div
for_token percent prefix = modulo
for_token left_paren prefix = paren
for_token _ prefix = min
