-- ===== src/Lex/Tokenizer/Handlers/LineFalls.antt =====
-- src/lex/tokenizer.rs: progress of the handlers behind the spacing of a line.
use protosnirk.Prelude.{
  ℕ, ◌+◌, ◌*◌, ◌≤◌, ◌<◌, ◌≡◌, refl, Bool, true, [], ◌∷◌, ◌++◌, Text, length, ◌==◌, ◌&&◌, ◌||◌, not,
  arith, Bool-cases, inl, inr, Option, none, some, subst,
}
use protosnirk.Lex.Span.{Location}
use protosnirk.Lex.TextIter.{TextIter, peek, next, peek_chars, next_at}
use protosnirk.Lex.Token.{Token}
use protosnirk.Lex.Tokenizer.Chars.{CharClasses, take_while, take_ident, char_is_symbol}
use protosnirk.Lex.Tokenizer.Progress.{take_while-le, take_while-lt, take_ident-lt}
use protosnirk.Lex.Tokenizer.Symbol.{SymbolEnd, symbol_token, comment, broken, symbol_loop}
use protosnirk.Lex.Tokenizer.Symbol.Consumes.{NotBroken, symbol_loop-lt}
use protosnirk.Lex.Tokenizer.Handlers.{
  Tokenizer, Control, give, goto, indent, looking_for_indent, parse_symbol, parse_keyword_or_ident,
  parse_float_literal, line_on, word_token, symbol_end, float_decimal, float_exponent, after_cr,
  peek_or_space,
}
use protosnirk.Lex.Tokenizer.Handlers.Work.{size, weight, Falls, gives, goes, crashes}

next_at-le : (cs : Text) (l : Location) → length (next_at cs l).chars ≤ length cs
next_at-le [] l = omega arith
next_at-le (c ∷ cs) l = omega arith

-- The handlers behind the spacing of a line: `before` is the length of the text that is left there.
module _ (before : ℕ) (z : Tokenizer) where
  abbrev pub Progresses : Control → Type 0
  Progresses =
      Falls (4 * before) (2 * before + length z.indent_size_stack + weight z.tokenizer_state)

  shorter :
      (t : Token) (it : TextIter)
      → length it.chars < before
      → Progresses (give t (record z { iter = it }))
  shorter t it h = gives λ live. omega arith

  float_exponent-Falls :
      (u : CharClasses) (digits : Text) (l : Location) (it : TextIter)
      → length it.chars < before
      → Progresses (float_exponent u digits l it z)
  unfolding float_exponent
  float_exponent-Falls u digits l it h =
      let e : ℕ = peek_or_space it in
      let after = take_while u.is_number (next it).chars (next it).location (digits ++ e ∷ []) in
      let le₁ = next_at-le it.chars it.location in
      let le₂ = take_while-le u.is_number (next it).chars (next it).location (digits ++ e ∷ []) in
      elim (Bool-cases (not (e == b'e') && not (e == b'E'))) [
        | inl p ↦ rw p (shorter _ it h)
        | inr p ↦ elim (Bool-cases (not (u.is_number (peek_or_space (next it))))) [
          | inl q ↦ rw (p, q) crashes
          | inr q ↦ rw (p, q) (shorter _ after.1 (omega arith))
        ]
      ]

  float_decimal-Falls :
      (u : CharClasses) (whole : Text) (l : Location) (it : TextIter)
      → length it.chars < before
      → Progresses (float_decimal u whole l it z)
  unfolding float_decimal
  float_decimal-Falls u whole l it h =
      let (digits, it') =
        take_while u.is_number (next it).chars (next it).location (whole ++ b'.' ∷ []) in
      let le₁ = next_at-le it.chars it.location in
      let le₂ = take_while-le u.is_number (next it).chars (next it).location (whole ++ b'.' ∷ []) in
      elim (Bool-cases (not (peek_or_space it == b'.'))) [
        | inl p ↦ rw p (float_exponent-Falls u whole l it h)
        | inr p ↦ elim (Bool-cases (not (u.is_number (peek_or_space (next it))))) [
          | inl q ↦ rw (p, q) crashes
          | inr q ↦ rw (p, q) (float_exponent-Falls u digits l it' (omega arith))
        ]
      ]

  symbol_end-Falls :
      (e : SymbolEnd) (l : Location) (it : TextIter)
      → (NotBroken e → length it.chars < before)
      → Progresses (symbol_end e l (record z { iter = it }))
  unfolding symbol_end
  symbol_end-Falls (symbol_token s) l it h = shorter _ it (h tt)
  symbol_end-Falls comment l it h = let le = h tt in goes (omega arith) (omega arith)
  symbol_end-Falls (broken p) l it h = crashes

-- A character in front of the iterator that passes the test is consumed.
take_while-shorter :
    (f : ℕ → Bool) (cs : Text) (l : Location) (acc : Text) (c : ℕ)
    → peek_chars cs ≡ some c
    → f c ≡ true
    → length (take_while f cs l acc).1.chars < length cs
take_while-shorter f [] l acc c e h = cc
take_while-shorter f (d ∷ cs) l acc c e h =
    let same : c ≡ d = cc in
    let le = take_while-lt f d cs l acc (subst (λ x. f x ≡ true) same h) in omega arith

take_ident-shorter :
    (u : CharClasses) (kw : Bool) (cs : Text) (l : Location) (acc : Text) (c : ℕ)
    → peek_chars cs ≡ some c
    → (c == b'_' || u.is_letter c) ≡ true
    → length (take_ident u kw cs l acc).2.chars < length cs
take_ident-shorter u kw [] l acc c e h = cc
take_ident-shorter u kw (d ∷ cs) l acc c e h =
    let same : c ≡ d = cc in
    let le =
      take_ident-lt u kw d cs l acc (subst (λ x. (x == b'_' || u.is_letter x) ≡ true) same h) in
    omega arith

next_at-shorter :
    (cs : Text) (l : Location) (c : ℕ)
    → peek_chars cs ≡ some c
    → length (next_at cs l).chars < length cs
next_at-shorter [] l c e = cc
next_at-shorter (d ∷ cs) l c e = omega arith

module _ (u : CharClasses) (z : Tokenizer) (c : ℕ) (front : peek z.iter ≡ some c) where
  after_cr-Falls : Progresses (size z) z (after_cr z)
  unfolding after_cr
  after_cr-Falls = go (peek (next z.iter)) refl
    where
      less : length (next z.iter).chars < length z.iter.chars
      less = next_at-shorter z.iter.chars z.iter.location c front

      go : (o : Option ℕ) → peek (next z.iter) ≡ o → Progresses (size z) z (after_cr z)
      go none e = rw (e, after_cr) crashes
      go (some d) e = elim (Bool-cases (d == b'\n')) [
        | inl p ↦
            let less₂ = next_at-shorter (next z.iter).chars (next z.iter).location d e in
            rw (e, after_cr) (rw p (goes (omega (arith, less)) (omega (arith, less))))
        | inr p ↦ rw (e, after_cr) (rw p crashes)
      ]

  parse_float_literal-Falls : u.is_number c ≡ true → Progresses (size z) z (parse_float_literal u z)
  unfolding parse_float_literal
  parse_float_literal-Falls h =
      let (whole, it) = take_while u.is_number z.iter.chars z.iter.location [] in
      float_decimal-Falls (size z) z u whole z.iter.location it
        (take_while-shorter u.is_number z.iter.chars z.iter.location [] c front h)

  parse_keyword_or_ident-Falls :
      (c == b'_' || u.is_letter c) ≡ true → Progresses (size z) z (parse_keyword_or_ident u z)
  unfolding parse_keyword_or_ident
  parse_keyword_or_ident-Falls h =
      let (is_kw, text, it) = take_ident u true z.iter.chars z.iter.location [] in
      shorter (size z) z (word_token is_kw text z.iter.location) it
        (take_ident-shorter u true z.iter.chars z.iter.location [] c front h)

  parse_symbol-Falls : Progresses (size z) z (parse_symbol z)
  unfolding parse_symbol
  parse_symbol-Falls =
      let (sym, it) = symbol_loop [] z.iter.chars z.iter.location in
      symbol_end-Falls (size z) z sym z.iter.location it
        (λ h. let lt = symbol_loop-lt [] z.iter.chars z.iter.location h in omega arith)

  newline-Falls :
      Progresses
        (size z)
        z
        (goto indent (record z { tokenizer_state = looking_for_indent; iter = next z.iter }))
  newline-Falls =
      let less = next_at-shorter z.iter.chars z.iter.location c front in
      goes (omega arith) (omega arith)

  pub line_on-Falls : Progresses (size z) z (line_on u c z)
  unfolding line_on
  line_on-Falls = elim (Bool-cases (c == b'\r')) [
    | inl p ↦ rw p after_cr-Falls
    | inr p ↦ elim (Bool-cases (c == b'\n')) [
      | inl q ↦ rw (p, q) newline-Falls
      | inr q ↦ elim (Bool-cases (u.is_number c)) [
        | inl r ↦ rw (p, q, r) (parse_float_literal-Falls r)
        | inr r ↦ elim (Bool-cases (c == b'_' || u.is_letter c)) [
          | inl s ↦ rw (p, q, r, s) (parse_keyword_or_ident-Falls s)
          | inr s ↦ elim (Bool-cases (char_is_symbol u c)) [
            | inl t ↦ rw (p, q, r, s, t) parse_symbol-Falls
            | inr t ↦ rw (p, q, r, s, t) crashes
          ]
        ]
      ]
    ]
  ]
