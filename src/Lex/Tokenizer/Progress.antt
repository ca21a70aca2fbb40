-- ===== src/Lex/Tokenizer/Progress.antt =====
-- src/lex/tokenizer.rs: what each loop leaves of the text.
use protosnirk.Prelude.{
  ℕ, ◌+◌, ◌≤◌, ◌<◌, ◌≡◌, Bool, true, [], ◌∷◌, ◌++◌, Text, length, ◌==◌, ◌%◌, ◌&&◌, ◌||◌, not, arith,
}
use protosnirk.Lex.Span.{Location, u32_mod}
use protosnirk.Lex.TextIter.{past}
use protosnirk.Lex.Tokenizer.Chars.{CharClasses, take_while, skip_while, count_spaces, take_ident}

pub take_while-le :
    (f : ℕ → Bool) (cs : Text) (l : Location) (acc : Text)
    → length (take_while f cs l acc).1.chars ≤ length cs
unfolding take_while
take_while-le f [] l acc = omega arith
take_while-le f (c ∷ cs) l acc = ground (arith, take_while-le f cs (past c l) (acc ++ c ∷ []))

pub take_while-lt :
    (f : ℕ → Bool) (c : ℕ) (cs : Text) (l : Location) (acc : Text)
    → f c ≡ true
    → length (take_while f (c ∷ cs) l acc).1.chars ≤ length cs
unfolding take_while
take_while-lt f c cs l acc h = rw h (take_while-le f cs (past c l) (acc ++ c ∷ []))

pub skip_while-le :
    (f : ℕ → Bool) (cs : Text) (l : Location) → length (skip_while f cs l).chars ≤ length cs
unfolding skip_while
skip_while-le f [] l = omega arith
skip_while-le f (c ∷ cs) l = ground (arith, skip_while-le f cs (past c l))

pub count_spaces-le :
    (cs : Text) (l : Location) (n : ℕ) → length (count_spaces cs l n).1.chars ≤ length cs
unfolding count_spaces
count_spaces-le [] l n = omega arith
count_spaces-le (c ∷ cs) l n = ground (arith, count_spaces-le cs (past c l) ((n + 1) % u32_mod))

-- A count that is not 0 has consumed something.
pub count_spaces-lt :
    (cs : Text) (l : Location)
    → 0 < (count_spaces cs l 0).0
    → length (count_spaces cs l 0).1.chars < length cs
unfolding count_spaces
count_spaces-lt [] l h = omega arith
count_spaces-lt (c ∷ cs) l h = ground (arith, count_spaces-le cs (past c l) ((0 + 1) % u32_mod))

pub take_ident-le :
    (u : CharClasses) (kw : Bool) (cs : Text) (l : Location) (acc : Text)
    → length (take_ident u kw cs l acc).2.chars ≤ length cs
unfolding take_ident
take_ident-le u kw [] l acc = omega arith
take_ident-le u kw (c ∷ cs) l acc =
    ground (
      arith,
      take_ident-le u (kw && not (u.is_number c || c == b'_')) cs (past c l) (acc ++ c ∷ []),
    )

pub take_ident-lt :
    (u : CharClasses) (kw : Bool) (c : ℕ) (cs : Text) (l : Location) (acc : Text)
    → (c == b'_' || u.is_letter c) ≡ true
    → length (take_ident u kw (c ∷ cs) l acc).2.chars ≤ length cs
unfolding take_ident
take_ident-lt u kw c cs l acc h =
    ground (
      arith,
      take_ident-le u (kw && not (u.is_number c || c == b'_')) cs (past c l) (acc ++ c ∷ []),
    )
