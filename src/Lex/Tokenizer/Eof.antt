-- ===== src/Lex/Tokenizer/Eof.antt =====
-- src/lex/tokenizer.rs: `next` behind the end of the text.
use protosnirk.Prelude.{
  ℕ, zero, suc, ◌+◌, ◌*◌, ◌≡◌, refl, ap, ◌∙◌, Outcome, ok, length, arith, ok-injective, subst,
}
use protosnirk.Lex.Token.{Token, eof}
use protosnirk.Lex.Tokenizer.Chars.{CharClasses}
use protosnirk.Lex.Tokenizer.Handlers.{
  Panic, Tokenizer, Control, give, goto, crash, start, dispatch, next_in,
}
use protosnirk.Lex.Tokenizer.Handlers.Ends.{AtEnd, Rests, gives, goes, crashes, dispatch-Rests}
use protosnirk.Lex.Tokenizer.{run, next, enough}

given-AtEnd :
    (t' t : Token) (z' z : Tokenizer)
    → (t'.kind ≡ eof → AtEnd t' z')
    → ◌≡◌ {A = Outcome Panic (Token × Tokenizer)} (ok (t', z')) (ok (t, z))
    → t.kind ≡ eof
    → AtEnd t z
given-AtEnd t' t z' z f e k =
    let same : ◌≡◌ {A = Token × Tokenizer} (t', z') (t, z) = ok-injective e in
    subst (λ (p : Token × Tokenizer). p.0.kind ≡ eof → AtEnd p.0 p.1) same f k

run-AtEnd :
    (u : CharClasses) (fuel : ℕ) (c : Control) (t : Token) (z : Tokenizer)
    → Rests c
    → run u fuel c ≡ ok (t, z)
    → t.kind ≡ eof
    → AtEnd t z
unfolding run
run-AtEnd u zero (give t' z') t z (gives f) e k = given-AtEnd t' t z' z f e k
run-AtEnd u (suc fuel) (give t' z') t z (gives f) e k = given-AtEnd t' t z' z f e k
run-AtEnd u zero (crash p) t z crashes e k = cc
run-AtEnd u (suc fuel) (crash p) t z crashes e k = cc
run-AtEnd u zero (goto h z') t z goes e k = cc
run-AtEnd u (suc fuel) (goto h z') t z goes e k =
    run-AtEnd u fuel (dispatch u h z') t z (dispatch-Rests u h z') e k

run_give :
    (u : CharClasses) (fuel : ℕ) (t : Token) (z : Tokenizer) → run u fuel (give t z) ≡ ok (t, z)
unfolding run
run_give u zero t z = refl
run_give u (suc fuel) t z = refl

-- When `next` has given `EOF`, it gives the same token and keeps its state for ever.
pub next_eof_again :
    (u : CharClasses) (z z' : Tokenizer) (t : Token)
    → next u z ≡ ok (t, z')
    → t.kind ≡ eof
    → next u z' ≡ ok (t, z')
unfolding next run dispatch next_in
next_eof_again u z z' t e k =
    let r : AtEnd t z' = run-AtEnd u (enough z) (goto start z) t z' goes e k in
    let n : enough z' ≡ suc (4 * length z'.iter.chars + 3) = omega arith in
    let m : ℕ = 4 * length z'.iter.chars + 3 in
    ap (λ f. run u f (goto start z')) n
    ∙ ap (λ s. run u m (next_in s z')) r.state
    ∙ ap (run u m) r.again
    ∙ run_give u m t z'
