-- ===== src/Parse/State/Order.antt =====
-- src/parse/parser.rs: the order in which `consume` gives the tokens that were looked at.
use protosnirk.Prelude.{
  ℕ, suc, ◌-◌, ◌≤◌, ◌≡◌, refl, some, List, [], ◌∷◌, ◌++◌, length, arith, Outcome, ok, err,
  out_of_fuel, bind, ◌∙◌, ap,
}
use protosnirk.Lex.Token.{Token}
use protosnirk.Parse.Errors.{Failure}
use protosnirk.Parse.State.{
  Parser, fill, look_ahead, peek, consume, pop_back, take_back, pull, IndentationRule,
}

pop_back-snoc : (ts : List Token) (u : Token) → pop_back (ts ++ u ∷ []) ≡ some (u, ts)
unfolding pop_back
pop_back-snoc [] u = refl
pop_back-snoc (t ∷ []) u = refl
pop_back-snoc (t ∷ v ∷ ts) u = rw (pop_back-snoc (v ∷ ts) u)

-- The parser with the tokens `ts` in its lookahead.
abbrev pub looking : List Token → Parser → Parser
looking ts s = record s { lookahead = ts }

look_ahead-loaded :
    (t : Token) (ts : List Token) (s : Parser)
    → look_ahead 1 (looking (t ∷ ts) s) ≡ ok (t, looking (t ∷ ts) s)
unfolding look_ahead fill
look_ahead-loaded t ts s = rw (none_missing (length ts)) refl
  where
    none_missing : (n : ℕ) → 1 - suc n ≡ 0
    none_missing n = omega arith

-- `peek` on a lookahead that is not empty.
pub peek_loaded :
    (t : Token) (ts : List Token) (s : Parser)
    → peek (looking (t ∷ ts) s) ≡ ok (t, looking (t ∷ ts) s)
unfolding peek
peek_loaded t ts s = look_ahead-loaded t ts s

-- `consume` on a lookahead that is not empty.
pub consume_loaded :
    (t : Token) (ts : List Token) (s : Parser)
    → consume (looking (t ∷ ts) s) ≡ take_back (pop_back (t ∷ ts)) (looking (t ∷ ts) s)
unfolding consume
consume_loaded t ts s = rw (look_ahead-loaded t ts s) refl

-- With at most one token in the lookahead, `consume` gives the token that `peek` shows, or fails
-- as it does.
pub consume-peek :
    (s : Parser)
    → length s.lookahead ≤ 1
    → consume s ≡ bind (peek s) (λ (t, s'). ok (t, looking [] s'))
unfolding consume peek look_ahead fill pop_back
consume-peek s h = go s.lookahead h
  where
    none_yet :
        (r : Outcome Failure (Token × List IndentationRule × List Token))
        → pull s.source s.end_location s.indent_rules ≡ r
        → consume (looking [] s) ≡ bind (peek (looking [] s)) (λ (t, s'). ok (t, looking [] s'))
    none_yet (ok (t, rules, rest)) e = rw e refl
    none_yet (err f) e = rw e refl
    none_yet out_of_fuel e = rw e refl

    go :
        (ts : List Token)
        → length ts ≤ 1
        → consume (looking ts s) ≡ bind (peek (looking ts s)) (λ (t, s'). ok (t, looking [] s'))
    go [] k = none_yet _ refl
    go (t ∷ []) k = refl
    go (t ∷ u ∷ ts) k = absurd (omega (arith, k))

-- With more than one token in the lookahead, `consume` gives the last one, while `peek` shows the
-- first: the queue is filled at its back and emptied at its back.
pub consume_last :
    (s : Parser) (t u : Token) (ts : List Token)
    → (peek (looking (t ∷ (ts ++ u ∷ [])) s) ≡ ok (t, looking (t ∷ (ts ++ u ∷ [])) s))
      × (consume (looking (t ∷ (ts ++ u ∷ [])) s) ≡ ok (u, looking (t ∷ ts) s))
consume_last s t u ts = (
  peek_loaded t (ts ++ u ∷ []) s,
  consume_loaded t (ts ++ u ∷ []) s
      ∙ ap (λ o. take_back o (looking (t ∷ (ts ++ u ∷ [])) s)) (pop_back-snoc (t ∷ ts) u),
)
