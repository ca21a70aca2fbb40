-- ===== src/Lex/Tokenizer/Typed.antt =====
-- src/lex/tokenizer.rs and src/lex/tokens.rs: `get_type` on the tokens of `next`.
use protosnirk.Prelude.{ℕ, zero, suc, ◌≡◌, Outcome, ok, none, ok-injective, subst}
use protosnirk.Lex.Token.{Token}
use protosnirk.Lex.Tokens.{get_type}
use protosnirk.Lex.Tokenizer.Chars.{CharClasses}
use protosnirk.Lex.Tokenizer.Handlers.{
  Panic, Tokenizer, Control, give, goto, crash, start, dispatch,
}
use protosnirk.Lex.Tokenizer.Handlers.Types.{IsCut, Types, gives, goes, crashes, dispatch-Types}
use protosnirk.Lex.Tokenizer.{run, next, enough}

given-IsCut :
    (t' t : Token) (z' z : Tokenizer)
    → (get_type t' ≡ none → IsCut t' z')
    → ◌≡◌ {A = Outcome Panic (Token × Tokenizer)} (ok (t', z')) (ok (t, z))
    → get_type t ≡ none
    → IsCut t z
given-IsCut t' t z' z f e k =
    let same : ◌≡◌ {A = Token × Tokenizer} (t', z') (t, z) = ok-injective e in
    subst (λ (p : Token × Tokenizer). get_type p.0 ≡ none → IsCut p.0 p.1) same f k

run-IsCut :
    (u : CharClasses) (fuel : ℕ) (c : Control) (t : Token) (z : Tokenizer)
    → Types c
    → run u fuel c ≡ ok (t, z)
    → get_type t ≡ none
    → IsCut t z
unfolding run
run-IsCut u zero (give t' z') t z (gives f) e k = given-IsCut t' t z' z f e k
run-IsCut u (suc fuel) (give t' z') t z (gives f) e k = given-IsCut t' t z' z f e k
run-IsCut u zero (crash p) t z crashes e k = cc
run-IsCut u (suc fuel) (crash p) t z crashes e k = cc
run-IsCut u zero (goto h z') t z goes e k = cc
run-IsCut u (suc fuel) (goto h z') t z goes e k =
    run-IsCut u fuel (dispatch u h z') t z (dispatch-Types u h z') e k

-- A token on which `get_type` panics can only be a symbol whose rule is partial, given at the end
-- of the text: every other token that `next` gives has a type.
pub next-IsCut :
    (u : CharClasses) (z z' : Tokenizer) (t : Token)
    → next u z ≡ ok (t, z')
    → get_type t ≡ none
    → IsCut t z'
unfolding next
next-IsCut u z z' t e k = run-IsCut u (enough z) (goto start z) t z' goes e k
