-- ===== src/Lex/Tokenizer/Symbol/Merge.antt =====
-- src/lex/tokenizer.rs and src/lex/tokens.rs: `parse_symbol` on the mark of a merge conflict.
use protosnirk.Prelude.{
  ℕ, ◌≡◌, ◌≢◌, refl, sym as back, ◌∙◌, ap, Option, none, some, [], ◌∷◌, ◌++◌, Text, codes,
  starts_with, pop_char, text_eq, byte_len, ◌==◌, Bool-cases, inl, inr, arith,
}
use protosnirk.Lex.Span.{Location}
use protosnirk.Lex.TextIter.{past}
use protosnirk.Lex.Tokens.{TokenizerSymbolRule, partial, complete, complete_prefix}
use protosnirk.Lex.Tokenizer.Symbol.{
  symbol_token, broken, no_symbol, unreachable_symbol, partial_symbol, symbol_loop, unmatched,
  stepped_past, rule_of,
}

-- The text of `GitMergeBegin`, and the text in front of its last character.
abbrev pub merge : Text
merge = codes "<<<<<<<"

abbrev pub six : Text
six = codes "<<<<<<"

rule_of-merge : rule_of merge ≡ some complete
unfolding rule_of text_eq
rule_of-merge = refl

rule_of-six : rule_of six ≡ none
unfolding rule_of text_eq
rule_of-six = refl

pop_char-snoc : (t : Text) (c : ℕ) → pop_char (t ++ c ∷ []) ≡ t
unfolding pop_char
pop_char-snoc [] c = refl
pop_char-snoc (a ∷ []) c = refl
pop_char-snoc (a ∷ b ∷ t) c = ap (λ u. a ∷ u) (pop_char-snoc (b ∷ t) c)

six_of_merge : (t : Text) (c : ℕ) → t ++ c ∷ [] ≡ merge → t ≡ six
unfolding pop_char
six_of_merge t c e = back (pop_char-snoc t c) ∙ ap pop_char e

stepped_past-ne-merge : (t : Text) → stepped_past t ≢ symbol_token merge
unfolding stepped_past
stepped_past-ne-merge t e = go (rule_of t) refl e
  where
    go : (o : Option TokenizerSymbolRule) → rule_of t ≡ o → stepped_past t ≢ symbol_token merge
    go none q e =
        let bad : broken unreachable_symbol ≡ symbol_token merge = rw (q, stepped_past) at e in cc
    go (some complete) q e =
        let bad : broken unreachable_symbol ≡ symbol_token merge = rw (q, stepped_past) at e in cc
    go (some partial) q e =
        let bad : broken partial_symbol ≡ symbol_token merge = rw (q, stepped_past) at e in cc
    go (some complete_prefix) q e =
        let good : symbol_token t ≡ symbol_token merge = rw (q, stepped_past) at e in
        cc (good, q, rule_of-merge)

unmatched-ne-merge : (t : Text) → unmatched t ≢ symbol_token merge
unfolding unmatched
unmatched-ne-merge t e = elim (Bool-cases (byte_len t == 1)) [
  | inl p ↦ let bad : broken no_symbol ≡ symbol_token merge = rw p at e in cc
  | inr p ↦ stepped_past-ne-merge (pop_char t) (rw p at e)
]

loop-ne-merge :
    (t cs : Text) (l : Location) → t ≢ six → t ≢ merge → (symbol_loop t cs l).0 ≢ symbol_token merge
unfolding symbol_loop
loop-ne-merge t [] l a b e = ground (arith, unmatched-ne-merge t)
loop-ne-merge t (c ∷ cs) l a b e =
    let longer = t ++ c ∷ [] in
    let ne : longer ≢ merge = λ q. a (six_of_merge t c q) in
    let rest : rule_of longer ≢ none → (symbol_loop longer cs (past c l)).0 ≢ symbol_token merge =
      λ n. loop-ne-merge longer cs (past c l) (λ q. n (ap rule_of q ∙ rule_of-six)) ne in
    ground (arith, unmatched-ne-merge longer)

-- On no text `parse_symbol` gives the mark of a merge conflict, seven `<`, as a symbol, so that it
-- never gives the text of `GitMergeBegin`; and where a symbol starts with six `<`, it panics, whatever
-- follows them.
pub symbol_loop-ne-merge :
    (cs : Text) (l : Location)
    → ((symbol_loop [] cs l).0 ≢ symbol_token merge)
      × ((symbol_loop [] (six ++ cs) l).0 ≡ broken partial_symbol)
unfolding symbol_loop rule_of unmatched starts_with text_eq pop_char
symbol_loop-ne-merge cs l = (loop-ne-merge [] cs l (λ q. cc) (λ q. cc), refl)
