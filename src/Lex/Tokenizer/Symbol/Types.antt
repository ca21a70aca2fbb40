-- ===== src/Lex/Tokenizer/Symbol/Types.antt =====
-- src/lex/tokenizer.rs and src/lex/tokens.rs: which symbols have a token type.
use protosnirk.Prelude.{
  Bool, true, false, ◌&&◌, ◌||◌, ◌≡◌, ◌≢◌, refl, Option, none, some, List, [], ◌∷◌, ◌++◌, Text,
  codes, starts_with, pop_char, text_eq_iff, arith, byte_len, ◌==◌, Bool-cases, inl, inr, subst,
  sym as back,
}
use protosnirk.Lex.Span.{Location}
use protosnirk.Lex.TextIter.{past}
use protosnirk.Lex.Token.{symbol}
use protosnirk.Lex.Tokens.{
  Row, TokenType, TokenizerSymbolRule, type_of, row_type, find_symbol, default_symbols, partial,
  complete, complete_prefix,
}
use protosnirk.Lex.Tokenizer.Symbol.{
  symbol_token, broken, no_symbol, unreachable_symbol, partial_symbol, symbol_loop, unmatched,
  stepped_past, rule_of, rule_of_row,
}

abbrev is_typed : Option TokenType → Bool
is_typed none = false
is_typed (some ty) = true

-- Whether a row has a type unless it is partial or begins a comment.
abbrev typed_row : Row → Bool
typed_row r = elim r.rule [
  | partial ↦ true
  | complete ↦ is_typed r.type
  | complete_prefix ↦ is_typed r.type || starts_with (codes "//") r.text
]

unfoldable all_typed : List Row → Bool
all_typed [] = true
all_typed (r ∷ rs) = typed_row r && all_typed rs

find_symbol-typed :
    (t : Text) (rs : List Row) (r : Row)
    → all_typed rs ≡ true
    → find_symbol t rs ≡ some r
    → (typed_row r ≡ true) × (r.text ≡ t)
unfolding find_symbol all_typed
find_symbol-typed t [] r a h = cc
find_symbol-typed t (q ∷ rs) r a h = ground (arith, find_symbol-typed t rs r, text_eq_iff t q.text)

-- A text with a type, or one whose rule is partial, or one that begins a comment.
typed_text :
    (t : Text)
    → type_of symbol t ≡ none
    → starts_with (codes "//") t ≡ false
    → (rule_of t ≢ some complete) × (rule_of t ≢ some complete_prefix)
unfolding type_of rule_of default_symbols all_typed starts_with
typed_text t h n =
    go (find_symbol t default_symbols) (λ r. find_symbol-typed t default_symbols r refl) h
  where
    go :
        (o : Option Row)
        → ((r : Row) → o ≡ some r → (typed_row r ≡ true) × (r.text ≡ t))
        → row_type o ≡ none
        → (rule_of_row o ≢ some complete) × (rule_of_row o ≢ some complete_prefix)
    go none f h = (λ e. cc, λ e. cc)
    go (some r) f h =
        let (typed, same) = f r refl in
        let n' : starts_with (codes "//") r.text ≡ false =
          subst (λ x. starts_with (codes "//") x ≡ false) (back same) n in
        ground (arith, typed, n', h)

starts_with-pop_char :
    (t : Text) → starts_with (codes "//") t ≡ false → starts_with (codes "//") (pop_char t) ≡ false
unfolding starts_with pop_char
starts_with-pop_char [] h = refl
starts_with-pop_char (a ∷ []) h = refl
starts_with-pop_char (a ∷ b ∷ []) h = ground arith
starts_with-pop_char (a ∷ b ∷ c ∷ t) h = ground arith

symbol_token-injective : (s t : Text) → symbol_token s ≡ symbol_token t → s ≡ t
symbol_token-injective s t e = cc

-- A text that goes back by one character is a symbol with a type.
unmatched-typed :
    (t s : Text)
    → starts_with (codes "//") t ≡ false
    → unmatched t ≡ symbol_token s
    → type_of symbol s ≢ none
unfolding unmatched stepped_past
unmatched-typed t s n e h = elim (Bool-cases (byte_len t == 1)) [
  | inl p ↦ let bad : broken no_symbol ≡ symbol_token s = rw p at e in cc
  | inr p ↦ go (rule_of (pop_char t)) refl (rw p at e)
]
  where
    go :
        (o : Option TokenizerSymbolRule)
        → rule_of (pop_char t) ≡ o
        → stepped_past (pop_char t) ≡ symbol_token s
        → ⊥
    go none q e =
        let bad : broken unreachable_symbol ≡ symbol_token s = rw (q, stepped_past) at e in cc
    go (some complete) q e =
        let bad : broken unreachable_symbol ≡ symbol_token s = rw (q, stepped_past) at e in cc
    go (some partial) q e =
        let bad : broken partial_symbol ≡ symbol_token s = rw (q, stepped_past) at e in cc
    go (some complete_prefix) q e =
        let good : symbol_token (pop_char t) ≡ symbol_token s = rw (q, stepped_past) at e in
        let same : pop_char t ≡ s = symbol_token-injective (pop_char t) s good in
        (typed_text (pop_char t) (subst (λ x. type_of symbol x ≡ none) (back same) h)
            (starts_with-pop_char t n)).1
          q

-- A symbol that the loop gives has a type, unless its rule is partial and the text ends there.
pub symbol_loop-typed :
    (sym cs : Text) (l : Location) (s : Text)
    → (symbol_loop sym cs l).0 ≡ symbol_token s
    → type_of symbol s ≡ none
    → (rule_of s ≡ some partial) × ((symbol_loop sym cs l).1.chars ≡ [])
unfolding symbol_loop
symbol_loop-typed sym [] l s e h = ground (arith, typed_text sym, unmatched-typed sym s)
symbol_loop-typed sym (c ∷ cs) l s e h = ground (
  arith,
  typed_text (sym ++ c ∷ []),
  unmatched-typed (sym ++ c ∷ []) s,
  symbol_loop-typed (sym ++ c ∷ []) cs (past c l) s,
)
