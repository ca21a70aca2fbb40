-- ===== src/Lex/Tokenizer/Terminates.antt =====
-- src/lex/tokenizer.rs: termination of `next` and of the loop over a text.
use native.Mathlib.Nat.{le_refl, le_trans}
use protosnirk.Prelude.{
  ℕ, zero, suc, ◌+◌, ◌*◌, ◌≤◌, ◌<◌, ◌≡◌, ◌≢◌, refl, List, ◌∷◌, Text, length, arith, Outcome, ok,
  err, out_of_fuel, bind,
}
use protosnirk.Lex.Token.{Token, TokenData, eof}
use protosnirk.Lex.Tokenizer.Chars.{CharClasses}
use protosnirk.Lex.Tokenizer.Handlers.{
  Panic, Tokenizer, Control, give, goto, crash, dispatch, start, new_tokenizer,
}
use protosnirk.Lex.Tokenizer.Handlers.Falls.{dispatch-Falls}
use protosnirk.Lex.Tokenizer.Handlers.Work.{Falls, gives, goes, crashes, Falls-mono, work}
use protosnirk.Lex.Tokenizer.{run, next, proceed, tokens, tokenize, enough}

-- A run that ends in a token or a panic; behind a token that is not `EOF` less work is left.
pub data Ends (bound : ℕ) : Outcome Panic (Token × Tokenizer) → Type 0 where
  token : {t : Token} {z : Tokenizer} → (t.kind ≢ eof → work z < bound) → Ends bound (ok (t, z))
  panics : {p : Panic} → Ends bound (err p)

run-Ends :
    (u : CharClasses) (fuel bound : ℕ) (c : Control)
    → Falls fuel bound c
    → Ends bound (run u fuel c)
unfolding run
run-Ends u zero bound (give t z) (gives f) = token f
run-Ends u (suc fuel) bound (give t z) (gives f) = token f
run-Ends u zero bound (crash p) crashes = panics
run-Ends u (suc fuel) bound (crash p) crashes = panics
run-Ends u zero bound (goto h z) (goes a b) = absurd (omega arith)
run-Ends u (suc fuel) bound (goto h z) (goes a b) =
    run-Ends u fuel bound (dispatch u h z) (Falls-mono (omega arith) b (dispatch-Falls u h z))

-- A call of `next` ends within its fuel, and unless it gives `EOF` or panics it leaves less work:
-- twice the characters, the entries of the stack, and 2 in the states that look for indentation.
pub next-Ends : (u : CharClasses) (z : Tokenizer) → Ends (work z) (next u z)
unfolding next
next-Ends u z =
    run-Ends u (enough z) (work z) (goto start z) (goes (omega arith) (le_refl (work z)))

proceed-ne-out_of_fuel :
    (k : TokenData) (t : Token) (more : Tokenizer → Outcome Panic (List Token)) (z : Tokenizer)
    → (k ≢ eof → more z ≢ out_of_fuel)
    → proceed k t more z ≢ out_of_fuel
unfolding proceed
proceed-ne-out_of_fuel eof t more z h e = cc
proceed-ne-out_of_fuel _ t more z h e = go (more z) refl e
  where
    go :
        (r : Outcome Panic (List Token)) → more z ≡ r → bind r (λ ts. ok (t ∷ ts)) ≡ out_of_fuel → ⊥
    go (ok ts) q e = cc
    go (err p) q e = cc
    go out_of_fuel q e = h (cc) q

then_tokens :
    (u : CharClasses) (fuel bound : ℕ) (r : Outcome Panic (Token × Tokenizer))
    → ((z : Tokenizer) → work z < fuel → tokens u fuel z ≢ out_of_fuel)
    → bound ≤ fuel
    → Ends bound r
    → bind r (λ (t, z'). proceed t.kind t (tokens u fuel) z') ≢ out_of_fuel
then_tokens u fuel bound (ok (t, z)) ih h (token f) =
    proceed-ne-out_of_fuel t.kind t (tokens u fuel) z (λ live. ih z (le_trans (f live) h))
then_tokens u fuel bound (err p) ih h panics = λ e. cc
then_tokens u fuel bound out_of_fuel ih h e = elim e [ ]

tokens-ne-out_of_fuel :
    (u : CharClasses) (fuel : ℕ) (z : Tokenizer) → work z < fuel → tokens u fuel z ≢ out_of_fuel
unfolding tokens
tokens-ne-out_of_fuel u zero z h = absurd (omega arith)
tokens-ne-out_of_fuel u (suc fuel) z h =
    then_tokens u fuel (work z) (next u z) (tokens-ne-out_of_fuel u fuel) (omega arith)
      (next-Ends u z)

-- The tokenizer reaches the end of every text, or panics: the fuel of the model always suffices.
pub tokenize_terminates : (u : CharClasses) (text : Text) → tokenize u text ≢ out_of_fuel
unfolding tokenize
tokenize_terminates u text =
    tokens-ne-out_of_fuel u (4 * length text + 4) (new_tokenizer text) (omega arith)
