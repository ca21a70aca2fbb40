-- ===== src/Lex/Tokenizer/Handlers/Falls.antt =====
-- src/lex/tokenizer.rs: the work that each handler leaves to the next.
use protosnirk.Prelude.{
  ℕ, ◌+◌, ◌*◌, ◌≤◌, ◌<◌, ◌≡◌, refl, List, [], ◌∷◌, length, ◌==◌, ltb, ltb→lt, arith, Bool-cases,
  inl, inr, Option, none, some, ap,
}
use protosnirk.Lex.TextIter.{TextIter, peek}
use protosnirk.Lex.Tokenizer.Chars.{CharClasses, skip_while, count_spaces, char_is_spacing}
use protosnirk.Lex.Tokenizer.Progress.{skip_while-le, count_spaces-le, count_spaces-lt}
use protosnirk.Lex.Tokenizer.Handlers.{
  Tokenizer, with_state, Handler, start, indent, line, outdent, TokenizerState, looking_for_indent,
  looking_for_newline, emitting_outdents, reached_eof, dispatch, next_eof, next_outdent,
  next_indent, next_line, eof_on, outdent_on, indent_on, next_in,
}
use protosnirk.Lex.Tokenizer.Handlers.Work.{
  size, weight, weight-le, work, work_at, steps, Falls, gives, goes, crashes, Falls-mono,
}
use protosnirk.Lex.Tokenizer.Handlers.LineFalls.{line_on-Falls}

eof_on-Falls :
    (n m : ℕ) (stack : List ℕ) (z : Tokenizer)
    → z.indent_size_stack ≡ stack
    → work z ≤ m
    → Falls n m (eof_on stack z)
unfolding eof_on
eof_on-Falls n m [] z e h = gives λ live. absurd (live refl)
eof_on-Falls n m (x ∷ []) z e h = gives λ live. absurd (live refl)
eof_on-Falls n m (x ∷ y ∷ r) z e h = gives λ live. omega (arith, ap length e)

outdent_on-Falls :
    (n : ℕ) (stack : List ℕ) (z : Tokenizer)
    → z.indent_size_stack ≡ stack
    → steps line z < n
    → Falls n (work_at outdent z) (outdent_on stack z)
unfolding outdent_on
outdent_on-Falls n [] z e h = elim (Bool-cases (ltb 0 z.iter.location.column)) [
  | inl p ↦ rw p (gives λ live. omega (arith, ap length e))
  | inr p ↦ rw p (goes h (omega arith))
]
outdent_on-Falls n (x ∷ []) z e h = elim (Bool-cases (ltb 0 z.iter.location.column)) [
  | inl p ↦ rw p (gives λ live. omega (arith, ap length e))
  | inr p ↦ rw p (goes h (omega arith))
]
outdent_on-Falls n (x ∷ y ∷ r) z e h = elim (Bool-cases (ltb z.iter.location.column x)) [
  | inl p ↦ rw p (gives λ live. omega (arith, ap length e, weight-le z.tokenizer_state))
  | inr p ↦ rw p (goes h (omega arith))
]

-- `before` is the length of the text in front of the spaces.
indent_on-Falls :
    (before : ℕ) (stack : List ℕ) (spaces : ℕ) (z : Tokenizer)
    → z.indent_size_stack ≡ stack
    → size z ≤ before
    → (0 < spaces → size z < before)
    → Falls
        (4 * before + 2)
        (2 * before + length z.indent_size_stack + 2)
        (indent_on stack spaces z)
unfolding indent_on
indent_on-Falls before [] n z e h some_space = crashes
indent_on-Falls before (x ∷ r) n z e h some_space = elim (Bool-cases (n == x)) [
  | inl p ↦ rw p (goes (omega arith) (omega arith))
  | inr p ↦ elim (Bool-cases (ltb x n)) [
    | inl q ↦
        let shorter : size z < before = some_space (omega (arith, ltb→lt x n q)) in
        rw (p, q) (gives λ live. omega (arith, ap length e))
    | inr q ↦ rw (p, q) (goes (omega arith) (omega arith))
  ]
]

next_indent-Falls : (z : Tokenizer) → Falls (steps indent z) (work_at indent z) (next_indent z)
unfolding next_indent next_eof
next_indent-Falls z = go (peek z.iter) refl
  where
    go :
        (o : Option ℕ) → peek z.iter ≡ o → Falls (steps indent z) (work_at indent z) (next_indent z)
    go none e =
        rw (e, next_indent)
          (eof_on-Falls _ _ z.indent_size_stack (with_state reached_eof z) refl (omega arith))
    go (some c) e =
        let (spaces, it) = count_spaces z.iter.chars z.iter.location 0 in
        rw (e, next_indent)
          (indent_on-Falls (size z) z.indent_size_stack spaces (record z { iter = it }) refl
            (count_spaces-le z.iter.chars z.iter.location 0)
            (count_spaces-lt z.iter.chars z.iter.location))

next_outdent-Falls : (z : Tokenizer) → Falls (steps outdent z) (work_at outdent z) (next_outdent z)
unfolding next_outdent
next_outdent-Falls z = outdent_on-Falls (steps outdent z) z.indent_size_stack z refl (omega arith)

next_line-Falls :
    (u : CharClasses) (z : Tokenizer) → Falls (steps line z) (work_at line z) (next_line u z)
unfolding next_line next_eof
next_line-Falls u z = go (peek it) refl
  where
    it : TextIter
    it = skip_while char_is_spacing z.iter.chars z.iter.location

    fewer : length it.chars ≤ length z.iter.chars
    fewer = skip_while-le char_is_spacing z.iter.chars z.iter.location

    go : (o : Option ℕ) → peek it ≡ o → Falls (steps line z) (work_at line z) (next_line u z)
    go none e =
        rw (e, next_line)
          (eof_on-Falls _ _ z.indent_size_stack
            (record z { tokenizer_state = reached_eof; iter = it }) refl (omega (arith, fewer)))
    go (some c) e =
        rw (e, next_line)
          (Falls-mono (omega (arith, fewer)) (omega (arith, fewer))
            (line_on-Falls u (record z { iter = it }) c e))

next_in-Falls :
    (s : TokenizerState) (z : Tokenizer)
    → z.tokenizer_state ≡ s
    → Falls (steps start z) (work_at start z) (next_in s z)
unfolding next_in next_eof
next_in-Falls reached_eof z e = eof_on-Falls _ _ z.indent_size_stack z refl (omega arith)
next_in-Falls looking_for_indent z e =
    let w : weight z.tokenizer_state ≡ 2 = ap weight e in goes (omega arith) (omega arith)
next_in-Falls emitting_outdents z e =
    let w : weight z.tokenizer_state ≡ 2 = ap weight e in goes (omega arith) (omega arith)
next_in-Falls looking_for_newline z e = goes (omega arith) (omega arith)

pub dispatch-Falls :
    (u : CharClasses) (h : Handler) (z : Tokenizer)
    → Falls (steps h z) (work_at h z) (dispatch u h z)
unfolding dispatch
dispatch-Falls u start z = next_in-Falls z.tokenizer_state z refl
dispatch-Falls u indent z = next_indent-Falls z
dispatch-Falls u line z = next_line-Falls u z
dispatch-Falls u outdent z = next_outdent-Falls z
