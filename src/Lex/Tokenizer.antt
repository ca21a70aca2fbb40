-- ===== src/Lex/Tokenizer.antt =====
-- src/lex/tokenizer.rs: `IterTokenizer`. The handlers `next_indent`, `next_line`, `next_outdent`
-- and `next` call one another in tail position only: a handler here does its own work and says
-- which handler goes on, and `run` follows them. A panic is an error with its kind.
pub mod Chars
pub mod Symbol
pub mod Handlers
pub mod Progress
pub mod Balance
pub mod Terminates
pub mod Eof
pub mod Typed
use protosnirk.Prelude.{
  ℕ, zero, suc, ◌+◌, ◌*◌, List, [], ◌∷◌, Text, length, Outcome, ok, err, out_of_fuel, bind,
}
use protosnirk.Lex.Token.{Token, TokenData, eof}
use Handlers.{Panic, Tokenizer, Control, give, goto, crash, start, dispatch, new_tokenizer}
use Chars.{CharClasses}

-- What a handler decided, followed by at most `fuel` further handlers.
unfoldable pub run : CharClasses → ℕ → Control → Outcome Panic (Token × Tokenizer)
run u fuel (give t z) = ok (t, z)
run u fuel (crash p) = err p
run u zero (goto h z) = out_of_fuel
run u (suc fuel) (goto h z) = run u fuel (dispatch u h z)

-- The handlers that one call runs through: three for each line and one for each comment.
abbrev pub enough : Tokenizer → ℕ
enough z = 4 * length z.iter.chars + 4

-- `Tokenizer::next`.
unfoldable pub next : CharClasses → Tokenizer → Outcome Panic (Token × Tokenizer)
next u z = run u (enough z) (goto start z)

-- One more token, and unless it is `EOF` those that `more` reads behind it.
unfoldable pub proceed :
    TokenData
    → Token
    → (Tokenizer → Outcome Panic (List Token))
    → Tokenizer
    → Outcome Panic (List Token)
proceed eof t more z = ok (t ∷ [])
proceed _ t more z = bind (more z) λ ts. ok (t ∷ ts)

-- The tokens up to and with the first `EOF`, by at most `fuel` calls of `next`.
unfoldable pub tokens : CharClasses → ℕ → Tokenizer → Outcome Panic (List Token)
tokens u zero z = out_of_fuel
tokens u (suc fuel) z = bind (next u z) λ (t, z'). proceed t.kind t (tokens u fuel) z'

unfoldable pub tokenize : CharClasses → Text → Outcome Panic (List Token)
tokenize u text = tokens u (4 * length text + 4) (new_tokenizer text)
