-- ===== src/Parse/Expressions/Trees.antt =====
-- src/parse/parser.rs: the trees of operators that `Parser::expression` is meant to build, and the
-- tokens that each is written as.
use protosnirk.Prelude.{ℕ, suc, ◌+◌, ◌≤◌, ◌≡◌, false, some, List, ◌∷◌, ok}
use protosnirk.Lex.Token.{Token}
use protosnirk.Lex.Tokens.{TokenType, get_type, ident, left_paren, right_paren}
use protosnirk.Ast.Identifier
use protosnirk.Ast.Operator.{BinaryOperator, UnaryOperator}
use protosnirk.Ast.Expression.{Expression, variable_ref, new_binary, new_unary}
use protosnirk.Parse.Operators.{binary_operator, unary_operator}
use protosnirk.Parse.Precedence.{level, for_token, numeric_prefix}

-- A name; a tree between its two parentheses; an operator with its type and token, in front of a
-- tree or between two.
pub data Tree : Type 0 where
  name : Token → Tree
  group : Token → Tree → Token → Tree
  unary : UnaryOperator → TokenType → Token → Tree → Tree
  binary : BinaryOperator → TokenType → Token → Tree → Tree → Tree

-- The tokens of a tree, followed by others.
abbrev pub print : Tree → List Token → List Token
print (name t) ts = t ∷ ts
print (group o t c) ts = o ∷ print t (c ∷ ts)
print (unary op ty o t) ts = o ∷ print t ts
print (binary op ty o l r) ts = print l (o ∷ print r ts)

abbrev pub build : Tree → Expression
build (name t) = variable_ref (Identifier.new t)
build (group o t c) = build t
build (unary op ty o t) = new_unary o.start op (build t)
build (binary op ty o l r) = new_binary op (build l) (build r)

-- How tight an infix of a type binds.
abbrev pub tightness : TokenType → ℕ
tightness ty = level (for_token ty false)

-- Whether a tree needs no further parentheses where only infixes of at least a tightness may
-- stand: operators associate to the left, and a prefix takes no infix.
abbrev pub Fits : ℕ → Tree → Type 0
Fits k (name t) = get_type t ≡ some ident
Fits k (group o t c) = (get_type o ≡ some left_paren) × Fits 1 t × (get_type c ≡ some right_paren)
Fits k (unary op ty o t) =
    (get_type o ≡ some ty) × (unary_operator ty ≡ ok op) × Fits (suc (level numeric_prefix)) t
Fits k (binary op ty o l r) =
    (get_type o ≡ some ty)
    × (binary_operator ty ≡ ok op)
    × (k ≤ tightness ty)
    × Fits (tightness ty) l
    × Fits (suc (tightness ty)) r

-- The fuel that `expression` spends until its loop has the tree as its left side, and the fuel that
-- it needs besides for the trees within it.
abbrev pub spent : Tree → ℕ
spent (binary op ty o l r) = spent l + 3
spent _ = 0

abbrev pub inside : Tree → ℕ
inside (name t) = 1
inside (group o t c) = 2 + (spent t + inside t)
inside (unary op ty o t) = 2 + (spent t + inside t)
inside (binary op ty o l r) = inside l + (1 + (spent r + inside r))

-- The fuel that parses a tree.
abbrev pub enough_for : Tree → ℕ
enough_for t = 1 + (spent t + inside t)
