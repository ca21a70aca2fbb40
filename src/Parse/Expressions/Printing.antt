-- ===== src/Parse/Expressions/Printing.antt =====
-- src/parse/parser.rs: `Parser::expression` on the tokens of a tree of operators.
use protosnirk.Prelude.{ℕ, suc, ◌+◌, ◌-◌, ◌*◌, ◌≤◌, ◌≡◌, some, List, [], ◌∷◌, ok, length, arith}
use protosnirk.Lex.Span.{Location}
use protosnirk.Lex.Token.{Token}
use protosnirk.Lex.Tokens.{TokenType, get_type}
use protosnirk.Parse.Precedence.{Precedence, level}
use protosnirk.Parse.Expressions.{expression}
use protosnirk.Parse.Expressions.Trees.{
  Tree, name, group, unary, binary, print, build, tightness, Fits, spent, inside, enough_for,
}
use protosnirk.Parse.Expressions.Pratt.{expression-spine, spine_ends}
use protosnirk.Parse.Expressions.Steps.{fresh, loaded}

-- How many tokens a tree has.
abbrev pub count : Tree → ℕ
count t = length (print t [])

length-print : (t : Tree) (ts : List Token) → length (print t ts) ≡ count t + length ts
length-print (name t) ts = omega arith
length-print (group o t c) ts = omega (arith, length-print t (c ∷ ts), length-print t (c ∷ []))
length-print (unary op ty o t) ts = omega (arith, length-print t ts)
length-print (binary op ty o l r) ts =
    omega
      (arith, length-print l (o ∷ print r ts), length-print l (o ∷ print r []), length-print r ts)

-- The calls for a tree are fewer than five for each of its tokens.
enough_for-le : (t : Tree) → enough_for t + 3 ≤ 5 * count t
enough_for-le (name t) = omega arith
enough_for-le (group o t c) = omega (arith, enough_for-le t, length-print t (c ∷ []))
enough_for-le (unary op ty o t) = omega (arith, enough_for-le t)
enough_for-le (binary op ty o l r) =
    omega (arith, enough_for-le l, enough_for-le r, length-print l (o ∷ print r []))

-- With five units of fuel for each of its tokens, `expression` at a precedence reads the tokens of
-- every tree of names, parentheses, prefixes and binary operators that fits there, gives the
-- expression that the tree builds, and stops in front of the token behind it, if that token binds
-- no tighter than the precedence and than a prefix.
pub expression-print :
    (t : Tree) (f : ℕ) (p : Precedence) (l : Location) (ty : TokenType) (x : Token)
    (ts : List Token)
    → Fits (suc (level p)) t
    → 5 * count t ≤ f
    → get_type x ≡ some ty
    → tightness ty ≤ level p
    → tightness ty ≤ 8
    → expression f p (fresh l (print t (x ∷ ts))) ≡ ok (build t, loaded l x ts)
expression-print t f p l ty x ts fits fuel h ends no_call =
    let g : ℕ = f - enough_for t in
    let n : f ≡ suc (spent t + (inside t + g)) = omega (arith, enough_for-le t) in
    rw n (
      spine_ends t g p l ty x ts
        (expression-spine t (suc (level p)) g p l ty x ts fits (omega arith)
          (h, omega arith, no_call))
        h ends)
