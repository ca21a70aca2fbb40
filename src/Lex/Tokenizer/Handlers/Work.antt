-- ===== src/Lex/Tokenizer/Handlers/Work.antt =====
-- src/lex/tokenizer.rs: the measures that fall with each handler and with each token.
use protosnirk.Prelude.{ℕ, ◌+◌, ◌*◌, ◌≤◌, ◌<◌, length, arith, ◌≢◌}
use native.Mathlib.Nat.{le_trans}
use protosnirk.Lex.Token.{Token, eof}
use protosnirk.Lex.Tokenizer.Handlers.{
  Panic, Tokenizer, Control, give, goto, crash, Handler, start, indent, line, outdent,
  TokenizerState, looking_for_indent, emitting_outdents,
}

abbrev pub size : Tokenizer → ℕ
size z = length z.iter.chars

abbrev pub weight : TokenizerState → ℕ
weight looking_for_indent = 2
weight emitting_outdents = 2
weight _ = 0

-- What falls with each token.
abbrev pub work : Tokenizer → ℕ
work z = 2 * size z + length z.indent_size_stack + weight z.tokenizer_state

abbrev pub work_at : Handler → Tokenizer → ℕ
work_at indent z = 2 * size z + length z.indent_size_stack + 2
work_at outdent z = 2 * size z + length z.indent_size_stack + 2
work_at _ z = work z

abbrev pub rank : Handler → ℕ
rank line = 0
rank outdent = 1
rank indent = 2
rank start = 3

-- What falls with each handler of one call.
abbrev pub steps : Handler → Tokenizer → ℕ
steps h z = 4 * size z + rank h

pub data Falls (fuel bound : ℕ) : Control → Type 0 where
  gives :
      {t : Token} {z : Tokenizer} → (t.kind ≢ eof → work z < bound) → Falls fuel bound (give t z)
  goes :
      {h : Handler} {z : Tokenizer}
      → steps h z < fuel
      → work_at h z ≤ bound
      → Falls fuel bound (goto h z)
  crashes : {p : Panic} → Falls fuel bound (crash p)

pub weight-le : (s : TokenizerState) → weight s ≤ 2
weight-le looking_for_indent = omega arith
weight-le _ = omega arith

-- The spacing in front only makes the text shorter.
pub Falls-mono : {n m n' m' : ℕ} {c : Control} → n ≤ n' → m ≤ m' → Falls n m c → Falls n' m' c
Falls-mono h k (gives f) = gives λ live. le_trans (f live) k
Falls-mono h k (goes a b) = goes (le_trans a h) (le_trans b k)
Falls-mono h k crashes = crashes
