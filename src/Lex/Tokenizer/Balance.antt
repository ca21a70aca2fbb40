-- ===== src/Lex/Tokenizer/Balance.antt =====
-- src/lex/tokenizer.rs: the blocks in the tokens of a text.
use protosnirk.Prelude.{
  ℕ, zero, suc, ◌+◌, ◌≡◌, refl, List, [], ◌∷◌, Text, length, arith, none, some, Option, Outcome, ok,
  err, out_of_fuel, bind-eq-ok, ok-injective, ◌≢◌, subst, sym, ap, ◌∙◌, ◌*◌,
}
use protosnirk.Lex.Token.{Token, TokenData, begin_block, end_block, eof}
use protosnirk.Lex.Tokenizer.Chars.{CharClasses}
use protosnirk.Lex.Tokenizer.Handlers.{
  Panic, missing_indent, Tokenizer, Control, give, goto, crash, dispatch, start, new_tokenizer,
}
use protosnirk.Lex.Tokenizer.Handlers.Indents.{dispatch-KeepsIndents}
use protosnirk.Lex.Tokenizer.Handlers.Blocks.{
  IsIndents, opens, closes, OpenAtEnd, KeepsBlocks, KeepsIndents, gives, goes, crashes,
}
use protosnirk.Lex.Tokenizer.{run, next, proceed, tokens, tokenize, enough}

-- What one call of `next` owes to the stack.
pub data NextKeeps (before : List ℕ) : Outcome Panic (Token × Tokenizer) → Type 0 where
  token :
      {t : Token} {z : Tokenizer}
      → KeepsBlocks before t z.indent_size_stack
      → NextKeeps before (ok (t, z))
  panics : {p : Panic} → p ≢ missing_indent → NextKeeps before (err p)
  no_fuel : NextKeeps before out_of_fuel

run-NextKeeps :
    (u : CharClasses) (fuel : ℕ) (stack : List ℕ) (c : Control)
    → IsIndents stack
    → KeepsIndents stack c
    → NextKeeps stack (run u fuel c)
unfolding run
run-NextKeeps u zero stack (give t z) h (gives k) = token k
run-NextKeeps u (suc fuel) stack (give t z) h (gives k) = token k
run-NextKeeps u zero stack (crash p) h (crashes k) = panics k
run-NextKeeps u (suc fuel) stack (crash p) h (crashes k) = panics k
run-NextKeeps u zero stack (goto m z) h (goes e) = no_fuel
run-NextKeeps u (suc fuel) stack (goto m z) h (goes e) =
    run-NextKeeps u fuel stack (dispatch u m z) h (
      subst (λ s. KeepsIndents s (dispatch u m z)) e
        (dispatch-KeepsIndents u m z (subst IsIndents (sym e) h)))

-- From a stack of indentations that falls strictly to 0, `next` keeps such a stack, never panics
-- for want of an indentation, pushes one entry with each `BeginBlock` and pops one with each
-- `EndBlock`, and gives `EOF` only when one entry is left.
pub next-KeepsBlocks :
    (u : CharClasses) (z : Tokenizer)
    → IsIndents z.indent_size_stack
    → NextKeeps z.indent_size_stack (next u z)
unfolding next
next-KeepsBlocks u z h = run-NextKeeps u (enough z) z.indent_size_stack (goto start z) h (goes refl)

abbrev pub kinds : List Token → List TokenData
kinds [] = []
kinds (t ∷ ts) = t.kind ∷ kinds ts

-- How many blocks are open behind some tokens when `n` were open before them; `none` if one is
-- closed that is not open.
unfoldable pub open_after : ℕ → List TokenData → Option ℕ
open_after n [] = some n
open_after n (begin_block ∷ ks) = open_after (suc n) ks
open_after zero (end_block ∷ ks) = none
open_after (suc n) (end_block ∷ ks) = open_after n ks
open_after n (_ ∷ ks) = open_after n ks

open_after_step :
    (k : TokenData) (n m : ℕ) (ks : List TokenData)
    → m + closes k ≡ n + opens k
    → open_after n (k ∷ ks) ≡ open_after m ks
unfolding open_after
open_after_step begin_block zero m ks e = ap (λ x. open_after x ks) (omega arith)
open_after_step begin_block (suc n) m ks e = ap (λ x. open_after x ks) (omega arith)
open_after_step end_block zero m ks e = absurd (omega arith)
open_after_step end_block (suc n) m ks e = ap (λ x. open_after x ks) (omega arith)
open_after_step _ zero m ks e = ap (λ x. open_after x ks) (omega arith)
open_after_step _ (suc n) m ks e = ap (λ x. open_after x ks) (omega arith)

open_after_nil : open_after 0 [] ≡ some 0
unfolding open_after
open_after_nil = refl

NextKeeps-ok :
    {before : List ℕ} {r : Outcome Panic (Token × Tokenizer)} {t : Token} {z : Tokenizer}
    → NextKeeps before r
    → r ≡ ok (t, z)
    → KeepsBlocks before t z.indent_size_stack
NextKeeps-ok {before} {t = t} {z = z} (token {t = t'} {z = z'} k) e =
    let same : ◌≡◌ {A = Token × Tokenizer} (t', z') (t, z) = ok-injective e in
    subst (λ (p : Token × Tokenizer). KeepsBlocks before p.0 p.1.indent_size_stack) same k
NextKeeps-ok (panics k) e = cc
NextKeeps-ok no_fuel e = cc

length-IsIndents : (stack : List ℕ) → IsIndents stack → (n : ℕ) × (length stack ≡ suc n)
length-IsIndents [] h = absurd h
length-IsIndents (x ∷ s) h = (length s, refl)

-- The rest of a run closes what is open.
abbrev Closes : (Tokenizer → Outcome Panic (List Token)) → Type 0
Closes more =
    (z : Tokenizer) (n : ℕ) (ts : List Token)
    → IsIndents z.indent_size_stack
    → length z.indent_size_stack ≡ suc n
    → more z ≡ ok ts
    → open_after n (kinds ts) ≡ some 0

proceed-Closes :
    (k : TokenData) (t : Token) (more : Tokenizer → Outcome Panic (List Token)) (z : Tokenizer)
    (before : List ℕ) (n : ℕ) (ts : List Token)
    → t.kind ≡ k
    → Closes more
    → KeepsBlocks before t z.indent_size_stack
    → length before ≡ suc n
    → proceed k t more z ≡ ok ts
    → open_after n (kinds ts) ≡ some 0
unfolding proceed
proceed-Closes eof t more z before n ts e ih k l p =
    let last : length z.indent_size_stack ≡ 1 =
      subst (λ x. OpenAtEnd x (length z.indent_size_stack)) e k.at_end in
    subst (λ xs. open_after n (kinds xs) ≡ some 0) (ok-injective p)
      (open_after_step t.kind n 0 [] (omega (arith, k.blocks)) ∙ open_after_nil)
proceed-Closes _ t more z before n ts e ih k l p =
    let (m, len) = length-IsIndents z.indent_size_stack k.indents in
    let (rest, q, r) = bind-eq-ok (more z) (λ xs. ok (t ∷ xs)) p in
    subst (λ xs. open_after n (kinds xs) ≡ some 0) (ok-injective r)
      (open_after_step t.kind n m (kinds rest) (omega (arith, k.blocks))
        ∙ ih z m rest k.indents len q)

tokens-Closes : (u : CharClasses) (fuel : ℕ) → Closes (tokens u fuel)
unfolding tokens
tokens-Closes u zero z n ts h l p = cc
tokens-Closes u (suc fuel) z n ts h l p =
    let (tz, q, r) = bind-eq-ok (next u z) (λ (t, z'). proceed t.kind t (tokens u fuel) z') p in
    let (t, z') = tz in
    proceed-Closes t.kind t (tokens u fuel) z' z.indent_size_stack n ts refl (tokens-Closes u fuel)
      (NextKeeps-ok (next-KeepsBlocks u z h) q) l r

-- In the tokens of a text, up to and with `EOF`, no `EndBlock` closes more blocks than are open,
-- and at the end none is open.
pub tokenize_balanced :
    (u : CharClasses) (text : Text) (ts : List Token)
    → tokenize u text ≡ ok ts
    → open_after 0 (kinds ts) ≡ some 0
unfolding tokenize
tokenize_balanced u text ts p =
    tokens-Closes u (4 * length text + 4) (new_tokenizer text) 0 ts refl refl p
