-- ===== src/Parse/State.antt =====
-- src/parse/parser.rs: the state of `Parser`, its lookahead and its rules for indentation. A
-- tokenizer is the tokens that it will give and, behind them, `EOF` for ever at one location.
pub mod Order
use protosnirk.Prelude.{
  ℕ, zero, suc, ◌+◌, ◌-◌, Bool, true, false, ◌||◌, Option, none, some, List, [], ◌∷◌, ◌++◌, Text,
  length, text_eq, ltb, ◌==◌, if◌then◌else◌, Outcome, ok, err, out_of_fuel, bind,
}
use protosnirk.Lex.Span.{Location}
use protosnirk.Lex.Token.{Token, new_eof}
use protosnirk.Lex.Tokens.{TokenType, ◌==ₜ◌, begin_block, end_block, get_type}
use protosnirk.Parse.Errors.{Failure, parse_error, invalid_token, empty_lookahead, expected_token}

pub data IndentationRule : Type 0 where
  disable_until : TokenType → IndentationRule
  negate_deindent disable_indentation : IndentationRule

-- `source` is what is left of the tokenizer; the lookahead has its front first, the rules their
-- top first.
pub record Parser : Type 0 where
  pub source : List Token
  pub end_location : Location
  pub lookahead : List Token
  pub indent_rules : List IndentationRule

-- `Parser::new`
abbrev pub new_parser : List Token → Location → Parser
new_parser ts l = record { source = ts; end_location = l; lookahead = []; indent_rules = [] }

-- A method of the parser: its result and the parser behind it, or a failure.
abbrev pub P {ℓ} : Type ℓ → Type ℓ
P A = Parser → Outcome Failure (A × Parser)

abbrev pub pure {ℓ} : {A : Type ℓ} → A → P A
pure a s = ok (a, s)

abbrev pub fail {ℓ} : {A : Type ℓ} → Failure → P A
fail e s = err e

module _ {ℓ κ} {A : Type ℓ} {B : Type κ} where
  infixl 5 ◌>>=◌ ◌>>◌
  abbrev pub ◌>>=◌ : P A → (A → P B) → P B
  ◌>>=◌ m f s = bind (m s) λ (a, s'). f a s'

  abbrev pub ◌>>◌ : P A → P B → P B
  m >> k = m >>= λ _. k

-- `try!` on a result that reads no state.
abbrev pub lift {ℓ} : {A : Type ℓ} → Outcome Failure A → P A
lift (ok a) s = ok (a, s)
lift (err e) s = err e
lift out_of_fuel s = out_of_fuel

abbrev pub typed : Option TokenType → Outcome Failure TokenType
typed none = err invalid_token
typed (some ty) = ok ty

-- `token.get_type()`
abbrev pub type_of_token : Token → P TokenType
type_of_token t = lift (typed (get_type t))

abbrev is_block : TokenType → Bool
is_block ty = ty ==ₜ begin_block || ty ==ₜ end_block

-- Whether a rule lets a token through, and the rules behind it.
pub data Verdict : Type 0 where
  keep skip : List IndentationRule → Verdict

-- The `match` of `look_ahead`, on the rule on top.
unfoldable pub apply_rule : IndentationRule → List IndentationRule → TokenType → Verdict
apply_rule (disable_until t) rest ty =
    if ty ==ₜ t
    then keep rest
    else if is_block ty
    then skip (disable_until t ∷ rest)
    else keep (disable_until t ∷ rest)
apply_rule negate_deindent rest ty =
    if ty ==ₜ end_block then skip rest else keep (negate_deindent ∷ rest)
apply_rule disable_indentation rest ty =
    if is_block ty then skip (disable_indentation ∷ rest) else keep (disable_indentation ∷ rest)

-- Without a rule the token's type is not asked for.
unfoldable pub judge : List IndentationRule → Token → Outcome Failure Verdict
judge [] t = ok (keep [])
judge (r ∷ rest) t = bind (typed (get_type t)) λ ty. ok (apply_rule r rest ty)

-- What is pulled from the tokenizer: a token that the rules let through, the rules, and the rest.
abbrev Pulled : Type 0
Pulled = Outcome Failure (Token × List IndentationRule × List Token)

unfoldable pub settle : Token → List Token → Verdict → (List IndentationRule → Pulled) → Pulled
settle t rest (keep rules) more = ok (t, rules, rest)
settle t rest (skip rules) more = more rules

-- Behind the last token the tokenizer gives `EOF`, which no rule skips.
unfoldable pub pull : List Token → Location → List IndentationRule → Pulled
pull [] l rules =
    bind (judge rules (new_eof l)) λ v. settle (new_eof l) [] v (λ rules'. out_of_fuel)
pull (t ∷ rest) l rules = bind (judge rules t) λ v. settle t rest v (pull rest l)

-- `count` rounds of the loop in `look_ahead`.
unfoldable pub fill : ℕ → P (Unit {0})
fill zero s = ok (tt, s)
fill (suc count) s = bind (pull s.source s.end_location s.indent_rules) λ (t, rules, rest).
    fill count (record s { source = rest; lookahead = s.lookahead ++ t ∷ []; indent_rules = rules })

abbrev nth : List Token → ℕ → Token → Token
nth [] i d = d
nth (t ∷ ts) zero d = t
nth (t ∷ ts) (suc i) d = nth ts i d

-- `look_ahead`; behind `fill` the index is in bounds.
unfoldable pub look_ahead : ℕ → P Token
look_ahead count s =
    bind (fill (count - length s.lookahead) s)
      λ (_, s'). ok (nth s'.lookahead (count - 1) (new_eof s'.end_location), s')

unfoldable pub peek : P Token
peek = look_ahead 1

-- `VecDeque::pop_back`.
unfoldable pub pop_back : List Token → Option (Token × List Token)
pop_back [] = none
pop_back (t ∷ []) = some (t, [])
pop_back (t ∷ u ∷ ts) = elim (pop_back (u ∷ ts)) [
  | none ↦ none
  | some (last, rest) ↦ some (last, t ∷ rest)
]

-- `consume`; behind `look_ahead` the queue is not empty.
abbrev pub take_back : Option (Token × List Token) → P Token
take_back none s = err empty_lookahead
take_back (some (t, rest)) s = ok (t, record s { lookahead = rest })

unfoldable pub consume : P Token
consume s = bind (look_ahead 1 s) λ (_, s'). take_back (pop_back s'.lookahead) s'

unfoldable pub push_rule : IndentationRule → P (Unit {0})
push_rule r s = ok (tt, record s { indent_rules = r ∷ s.indent_rules })

tail_rules : List IndentationRule → List IndentationRule
tail_rules [] = []
tail_rules (r ∷ rest) = rest

unfoldable pub pop_rule : P (Unit {0})
unfolding tail_rules
pop_rule s = ok (tt, record s { indent_rules = tail_rules s.indent_rules })

unfoldable pub next_type : P TokenType
next_type = do t ← peek; type_of_token t

-- The token behind the start of a block, under a new rule.
unfoldable pub consume_under : IndentationRule → P (Bool × Token)
consume_under rule = do push_rule rule; t ← consume; pure (true, t)

unfoldable pub consume_indented : IndentationRule → P (Bool × Token)
consume_indented rule = do
  next ← consume
  ty ← type_of_token next
  if ty ==ₜ begin_block then consume_under rule else pure (false, next)

unfoldable pub consume_block : IndentationRule → P Bool
consume_block rule = do consume; push_rule rule; pure true

unfoldable pub apply_indentation : IndentationRule → P Bool
apply_indentation rule = do
  ty ← next_type
  if ty ==ₜ begin_block then consume_block rule else pure false

unfoldable pub consume_type : TokenType → P Token
consume_type expected = do
  t ← consume
  ty ← type_of_token t
  if ty ==ₜ expected then pure t else fail (parse_error (expected_token expected ty t))

unfoldable pub consume_type_indented : TokenType → IndentationRule → P (Bool × Token)
consume_type_indented expected rule = do
  indented ← apply_indentation rule
  t ← consume_type expected
  pure (indented, t)

unfoldable pub consume_name : TokenType → Text → P Token
consume_name expected name = do
  t ← consume_type expected
  ty ← type_of_token t
  if text_eq t.text name then pure t else fail (parse_error (expected_token expected ty t))

unfoldable pub consume_name_indented : TokenType → Text → IndentationRule → P (Bool × Token)
consume_name_indented expected name rule = do
  indented ← apply_indentation rule
  t ← consume_name expected name
  pure (indented, t)

-- The loop of `peek_indented`: the size of the lookahead, and whether a block began.
unfoldable pub peek_indented_from : ℕ → ℕ → Bool → P (Bool × Token)
peek_indented_from zero size indent = λ s. out_of_fuel
peek_indented_from (suc fuel) size indent = do
  t ← look_ahead size
  ty ← type_of_token t
  if ty ==ₜ begin_block then peek_indented_from fuel (size + 1) true else pure (indent, t)

-- Behind the last token comes `EOF`, so that the loop ends within the tokens that are left.
unfoldable pub peek_indented : P (Bool × Token)
peek_indented s = peek_indented_from (length s.source + length s.lookahead + 1) 1 false s

unfoldable pub peek_is_newline : Token → P Bool
peek_is_newline current = do
  (indent, peeked) ← peek_indented
  pure (indent || ltb current.start.line peeked.start.line)
