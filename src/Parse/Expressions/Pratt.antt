-- ===== src/Parse/Expressions/Pratt.antt =====
-- src/parse/parser.rs: the way of `Parser::expression` through a tree of operators.
use protosnirk.Prelude.{
  ℕ, suc, ◌+◌, ◌-◌, ◌≤◌, ◌<◌, ◌≡◌, refl, ap, ◌∙◌, false, some, List, ◌∷◌, ok, bind, arith,
}
use protosnirk.Lex.Span.{Location}
use protosnirk.Lex.Token.{Token}
use protosnirk.Lex.Tokens.{TokenType, get_type, right_paren}
use protosnirk.Ast.Expression.{new_binary}
use protosnirk.Parse.Precedence.{Precedence, min, level, for_token, numeric_prefix}
use protosnirk.Parse.Expressions.{expression, infix_loop}
use protosnirk.Parse.Expressions.Trees.{
  Tree, name, group, unary, binary, print, build, tightness, Fits, spent, inside,
}
use protosnirk.Parse.Expressions.Steps.{
  fresh, loaded, infix_loop-stops, infix_loop-applies, has_value-build, starts_name, starts_group,
  starts_unary, binary_operator_lem,
}

inside-pos : (t : Tree) → 1 ≤ inside t
inside-pos (name t) = omega arith
inside-pos (group o t c) = omega arith
inside-pos (unary op ty o t) = omega arith
inside-pos (binary op ty o l r) = omega (arith, inside-pos l)

-- The type of the token behind a tree: an infix that binds no tighter than all that may stand in the
-- tree, and no call.
abbrev pub Follows : ℕ → TokenType → Token → Type 0
Follows k ty x = (get_type x ≡ some ty) × (tightness ty ≤ k) × (tightness ty ≤ 8)

module _ (t : Tree) (g : ℕ) (p : Precedence) (l : Location) (ty : TokenType) (x : Token)
    (ts : List Token) where
  -- `expression` comes to its loop with the tree as its left side.
  abbrev pub Reaches : Type 0
  Reaches =
      expression (suc (spent t + (inside t + g))) p (fresh l (print t (x ∷ ts)))
      ≡ infix_loop (inside t + g) p (build t) (loaded l x ts)

  pub spine_ends :
      Reaches
      → get_type x ≡ some ty
      → tightness ty ≤ level p
      → expression (suc (spent t + (inside t + g))) p (fresh l (print t (x ∷ ts)))
        ≡ ok (build t, loaded l x ts)
  spine_ends e h n =
      let m : inside t + g ≡ suc (inside t + g - 1) = omega (arith, inside-pos t) in
      e
      ∙ ap (λ f. infix_loop f p (build t) (loaded l x ts)) m
      ∙ infix_loop-stops (inside t + g - 1) p (build t) l ty x ts h n

right_paren_ends : tightness right_paren ≡ 0
unfolding for_token
right_paren_ends = refl

pub expression-spine :
    (t : Tree) (k g : ℕ) (p : Precedence) (l : Location) (ty : TokenType) (x : Token)
    (ts : List Token)
    → Fits k t
    → level p < k
    → Follows k ty x
    → Reaches t g p l ty x ts
expression-spine (name t) k g p l ty x ts fits low follows =
    let n : 0 + (1 + g) ≡ suc g = omega arith in
    let m : 1 + g ≡ suc g = omega arith in rw (n, m) (starts_name g p l t x ts fits)
expression-spine (group o t c) k g p l ty x ts (opens, within, closes) low follows =
    let f : ℕ = suc (spent t + (inside t + g)) in
    let n : 0 + (2 + (spent t + inside t) + g) ≡ suc f = omega arith in
    let m : 2 + (spent t + inside t) + g ≡ suc f = omega arith in
    rw (n, m)
      (starts_group f p l o c x (build t) (print t (c ∷ x ∷ ts)) ts opens closes
        (spine_ends t g min l right_paren c (x ∷ ts)
          (expression-spine t 1 g min l right_paren c (x ∷ ts) within (omega arith)
            (closes, omega (arith, right_paren_ends), omega (arith, right_paren_ends)))
          closes (omega (arith, right_paren_ends)))
        (has_value-build t))
expression-spine (unary op uty o t) k g p l ty x ts (front, known, within) low (h, under, no_call) =
    let f : ℕ = suc (spent t + (inside t + g)) in
    let n : 0 + (2 + (spent t + inside t) + g) ≡ suc f = omega arith in
    let m : 2 + (spent t + inside t) + g ≡ suc f = omega arith in
    rw (n, m)
      (starts_unary f p l op uty o x (build t) (print t (x ∷ ts)) ts front known
        (spine_ends t g numeric_prefix l ty x ts
          (expression-spine t 9 g numeric_prefix l ty x ts within (omega arith)
            (h, omega arith, no_call))
          h no_call)
        (has_value-build t))
expression-spine (binary op oty o a b) k g p l ty x ts (front, known, least, left, right) low
      (h, under, no_call) =
    let (_, _, tight, _) = binary_operator_lem oty op known in
    let f : ℕ = suc (spent b + (inside b + (inside a + g))) in
    let g' : ℕ = 4 + (spent b + inside b) + g in
    let n : spent a + 3 + (inside a + (1 + (spent b + inside b)) + g) ≡ spent a + (inside a + g') =
      omega arith in
    let m : inside a + (1 + (spent b + inside b)) + g ≡ f = omega arith in
    let q : inside a + g' ≡ suc (suc (suc f)) = omega arith in
    let behind : List Token = print b (x ∷ ts) in
    rw (n, m)
      (expression-spine a (tightness oty) g' p l oty o behind left (omega arith)
          (front, omega arith, tight)
        ∙ ap (λ n. infix_loop n p (build a) (loaded l o behind)) q
        ∙ infix_loop-applies f p (build a) l op oty o behind front known (omega arith)
        ∙ ap (λ r. bind r (λ (e, s). infix_loop f p (new_binary op (build a) e) s))
            (spine_ends b (inside a + g) (for_token oty false) l ty x ts
              (expression-spine b (suc (tightness oty)) (inside a + g) (for_token oty false) l ty x
                ts right (omega arith) (h, omega arith, no_call))
              h (omega arith)))
