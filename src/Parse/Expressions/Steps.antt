-- ===== src/Parse/Expressions/Steps.antt =====
-- src/parse/parser.rs: the steps that `Parser::expression` takes on a token.
use protosnirk.Prelude.{
  ℕ, suc, ◌≤◌, ◌<◌, ◌≡◌, refl, ap, ◌∙◌, true, false, some, List, [], ◌∷◌, ok, bind, arith, ltb,
}
use protosnirk.Lex.Span.{Location}
use protosnirk.Lex.Token.{Token}
use protosnirk.Lex.Tokens.{TokenType, get_type, ◌==ₜ◌, begin_block, ident, left_paren, right_paren}
use protosnirk.Ast.Operator.{BinaryOperator, UnaryOperator}
use protosnirk.Ast.Expression.{Expression, variable_ref, new_binary, new_unary, has_value}
use protosnirk.Parse.Errors.{expect_value}
use protosnirk.Ast.Identifier
use protosnirk.Parse.Operators.{binary_operator, unary_operator}
use protosnirk.Parse.Precedence.{Precedence, min, level, for_token, numeric_prefix}
use protosnirk.Parse.State.{
  Parser, peek, consume, look_ahead, fill, pull, judge, settle, pop_back, next_type,
  consume_indented, consume_type,
}
use protosnirk.Parse.Expressions
use protosnirk.Parse.Expressions.{
  expression, prefix_expr, prefix_of, infix_loop, infix_round, infix_expr, infix_of, applies_op,
  current_precedence,
}
use protosnirk.Parse.Expressions.Trees.{Tree, name, group, unary, binary, build, tightness}

-- The parser in front of some tokens, without rules and with no token looked at.
abbrev pub fresh : Location → List Token → Parser
fresh l ts = record { source = ts; end_location = l; lookahead = []; indent_rules = [] }

-- The same behind a look at the first token.
abbrev pub loaded : Location → Token → List Token → Parser
loaded l t ts = record { source = ts; end_location = l; lookahead = t ∷ []; indent_rules = [] }

infix_loop-fresh :
    (f : ℕ) (p : Precedence) (left : Expression) (l : Location) (t : Token) (ts : List Token)
    → infix_loop (suc f) p left (fresh l (t ∷ ts)) ≡ infix_loop (suc f) p left (loaded l t ts)
unfolding infix_loop current_precedence next_type peek look_ahead fill pull judge settle
infix_loop-fresh f p left l t ts = refl

expression_starts :
    (f : ℕ) (p : Precedence) (l : Location) (ty : TokenType) (t : Token) (ts : List Token)
    → get_type t ≡ some ty
    → (ty ==ₜ begin_block) ≡ false
    → expression (suc f) p (fresh l (t ∷ ts))
      ≡ bind (prefix_expr f (prefix_of ty) ty t (fresh l ts)) (λ (left, s). infix_loop f p left s)
unfolding expression consume_indented consume look_ahead fill pull judge settle pop_back
expression_starts f p l ty t ts h n = simp (h, n)

pub infix_loop-stops :
    (f : ℕ) (p : Precedence) (left : Expression) (l : Location) (ty : TokenType) (t : Token)
    (ts : List Token)
    → get_type t ≡ some ty
    → tightness ty ≤ level p
    → infix_loop (suc f) p left (loaded l t ts) ≡ ok (left, loaded l t ts)
unfolding infix_loop current_precedence next_type peek look_ahead fill
infix_loop-stops f p left l ty t ts h n =
    let no : ltb (level p) (tightness ty) ≡ false = ground arith in simp (h, no)

-- What `expression` asks of an operator between two operands.
pub binary_operator_lem :
    (ty : TokenType) (op : BinaryOperator)
    → binary_operator ty ≡ ok op
    → (infix_of ty ≡ applies_op)
      × ((ty ==ₜ begin_block) ≡ false)
      × (tightness ty ≤ 8)
      × (1 ≤ tightness ty)
unfolding binary_operator infix_of for_token
binary_operator_lem ty op h = ground arith

-- What `expression` asks of an operator in front of its operand.
unary_operator_lem :
    (ty : TokenType) (op : UnaryOperator)
    → unary_operator ty ≡ ok op
    → (prefix_of ty ≡ Expressions.unary)
      × ((ty ==ₜ begin_block) ≡ false)
      × (for_token ty true ≡ numeric_prefix)
unfolding unary_operator prefix_of for_token
unary_operator_lem ty op h = ground arith

-- A round of the loop takes the token off before it looks at its kind.
infix_loop-consumes :
    (f : ℕ) (p : Precedence) (left : Expression) (l : Location) (ty : TokenType) (t : Token)
    (ts : List Token)
    → get_type t ≡ some ty
    → (ty ==ₜ begin_block) ≡ false
    → level p < tightness ty
    → infix_loop (suc (suc (suc f))) p left (loaded l t ts)
      ≡ infix_expr (suc f) (infix_of ty) p ty t left (fresh l ts)
unfolding infix_loop infix_round current_precedence next_type peek consume_indented consume
    look_ahead fill pop_back
infix_loop-consumes f p left l ty t ts h plain n =
    let yes : ltb (level p) (tightness ty) ≡ true = ground arith in simp (h, yes, plain)

infix_expr-applies :
    (f : ℕ) (p : Precedence) (left : Expression) (op : BinaryOperator) (ty : TokenType) (t : Token)
    (s : Parser)
    → binary_operator ty ≡ ok op
    → infix_expr (suc f) applies_op p ty t left s
      ≡ bind
          (expression f (for_token ty false) s)
          (λ (right, s'). infix_loop f p (new_binary op left right) s')
unfolding infix_expr
infix_expr-applies f p left op ty t s b = simp b

pub infix_loop-applies :
    (f : ℕ) (p : Precedence) (left : Expression) (l : Location) (op : BinaryOperator)
    (ty : TokenType) (t : Token) (ts : List Token)
    → get_type t ≡ some ty
    → binary_operator ty ≡ ok op
    → level p < tightness ty
    → infix_loop (suc (suc (suc f))) p left (loaded l t ts)
      ≡ bind
          (expression f (for_token ty false) (fresh l ts))
          (λ (right, s). infix_loop f p (new_binary op left right) s)
infix_loop-applies f p left l op ty t ts h b n =
    let (apply, plain, _, _) = binary_operator_lem ty op b in
    infix_loop-consumes f p left l ty t ts h plain n
    ∙ ap (λ k. infix_expr (suc f) k p ty t left (fresh l ts)) apply
    ∙ infix_expr-applies f p left op ty t (fresh l ts) b

pub has_value-build : (t : Tree) → has_value (build t) ≡ true
unfolding has_value new_binary new_unary
has_value-build (name t) = refl
has_value-build (group o t c) = has_value-build t
has_value-build (unary op ty o t) = refl
has_value-build (binary op ty o l r) = refl

-- An expression that begins with a name.
pub starts_name :
    (g : ℕ) (p : Precedence) (l : Location) (t x : Token) (ts : List Token)
    → get_type t ≡ some ident
    → expression (suc (suc g)) p (fresh l (t ∷ x ∷ ts))
      ≡ infix_loop (suc g) p (variable_ref (Identifier.new t)) (loaded l x ts)
unfolding prefix_expr prefix_of
starts_name g p l t x ts h =
    expression_starts (suc g) p l ident t (x ∷ ts) h refl ∙ infix_loop-fresh g p _ l x ts

-- An expression that begins with a tree in parentheses.
pub starts_group :
    (f : ℕ) (p : Precedence) (l : Location) (o c x : Token) (e : Expression) (inner ts : List Token)
    → get_type o ≡ some left_paren
    → get_type c ≡ some right_paren
    → expression f min (fresh l inner) ≡ ok (e, loaded l c (x ∷ ts))
    → has_value e ≡ true
    → expression (suc (suc f)) p (fresh l (o ∷ inner)) ≡ infix_loop (suc f) p e (loaded l x ts)
unfolding prefix_expr prefix_of expect_value consume_type consume look_ahead fill pop_back
starts_group f p l o c x e inner ts h h' q v =
    expression_starts (suc f) p l left_paren o inner h refl
    ∙ (simp (q, v, h') refl)
    ∙ infix_loop-fresh f p e l x ts

-- An expression that begins with an operator and the tree behind it.
pub starts_unary :
    (f : ℕ) (p : Precedence) (l : Location) (op : UnaryOperator) (ty : TokenType) (o x : Token)
    (e : Expression) (inner ts : List Token)
    → get_type o ≡ some ty
    → unary_operator ty ≡ ok op
    → expression f numeric_prefix (fresh l inner) ≡ ok (e, loaded l x ts)
    → has_value e ≡ true
    → expression (suc (suc f)) p (fresh l (o ∷ inner))
      ≡ infix_loop (suc f) p (new_unary o.start op e) (loaded l x ts)
unfolding prefix_expr expect_value
starts_unary f p l op ty o x e inner ts h u q v =
    let (prefix, plain, tight) = unary_operator_lem ty op u in
    expression_starts (suc f) p l ty o inner h plain ∙ simp (prefix, tight, q, v, u)
