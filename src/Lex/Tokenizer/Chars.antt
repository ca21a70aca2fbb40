-- ===== src/Lex/Tokenizer/Chars.antt =====
-- src/lex/tokenizer.rs: classes of characters, and the loops that take or skip a class. The
-- classes of the crate `unicode_categories` are parameters.
use protosnirk.Prelude.{
  ℕ, ◌+◌, ◌%◌, Bool, not, ◌&&◌, ◌||◌, [], ◌∷◌, ◌++◌, Text, leb, ◌==◌, if◌then◌else◌,
}
use protosnirk.Lex.Span.{Location, u32_mod}
use protosnirk.Lex.TextIter.{TextIter, past}

-- `UnicodeCategories` for `char`.
pub record CharClasses : Type 0 where
  pub is_symbol : ℕ → Bool
  pub is_number : ℕ → Bool
  pub is_letter : ℕ → Bool

-- `char::is_whitespace`: the code points with the property White_Space.
abbrev pub is_whitespace : ℕ → Bool
is_whitespace c =
    (leb 0x9 c && leb c 0xd)
    || c == 0x20
    || c == 0x85
    || c == 0xa0
    || c == 0x1680
    || (leb 0x2000 c && leb c 0x200a)
    || c == 0x2028
    || c == 0x2029
    || c == 0x202f
    || c == 0x205f
    || c == 0x3000

unfoldable pub char_is_spacing : ℕ → Bool
char_is_spacing c = not (c == b'\r') && (not (c == b'\n') && is_whitespace c)

unfoldable pub char_is_symbol : CharClasses → ℕ → Bool
char_is_symbol u c =
    c == b'%'
    || c == b'/'
    || c == b'('
    || c == b')'
    || c == b'-'
    || c == b'*'
    || c == b','
    || c == b':'
    || c == b'!'
    || u.is_symbol c

-- `take_while`, with the accumulator; the iterator stops in front of the first character that
-- fails the test.
unfoldable pub take_while : (ℕ → Bool) → Text → Location → Text → Text × TextIter
take_while f [] l acc = (acc, record { chars = []; location = l })
take_while f (c ∷ cs) l acc =
    if f c
    then take_while f cs (past c l) (acc ++ c ∷ [])
    else (acc, record { chars = c ∷ cs; location = l })

-- `skip_while`, and the loop over spacing in `next_line`.
unfoldable pub skip_while : (ℕ → Bool) → Text → Location → TextIter
skip_while f [] l = record { chars = []; location = l }
skip_while f (c ∷ cs) l =
    if f c then skip_while f cs (past c l) else record { chars = c ∷ cs; location = l }

-- The loop of `next_indent`: `space_count` is a `u32`.
unfoldable pub count_spaces : Text → Location → ℕ → ℕ × TextIter
count_spaces [] l n = (n, record { chars = []; location = l })
count_spaces (c ∷ cs) l n =
    if char_is_spacing c
    then count_spaces cs (past c l) ((n + 1) % u32_mod)
    else (n, record { chars = c ∷ cs; location = l })

-- `take_while_ident`: whether the text may be a keyword, the text, and the iterator.
unfoldable pub take_ident : CharClasses → Bool → Text → Location → Text → Bool × Text × TextIter
take_ident u kw [] l acc = (kw, acc, record { chars = []; location = l })
take_ident u kw (c ∷ cs) l acc =
    let no_letter = u.is_number c || c == b'_' in
    if no_letter || u.is_letter c
    then take_ident u (kw && not no_letter) cs (past c l) (acc ++ c ∷ [])
    else (kw, acc, record { chars = c ∷ cs; location = l })
