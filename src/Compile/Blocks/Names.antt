-- ===== src/Compile/Blocks/Names.antt =====
-- The names of basic blocks are C strings.
use Prim.Native.Nat.{◌/◌}
use protosnirk.Prelude.{
  ℕ, zero, suc, ◌+◌, ◌%◌, ◌≡◌, refl, Bool, true, false, some, [], ◌∷◌, ◌++◌, Text, ltb, ◌==◌,
  Bool-cases, inl, inr, if◌then◌else◌, arith,
}
use protosnirk.Llvm.Values.{has_nul, c_string}
use protosnirk.Compile.Blocks.{digits_on, decimal, numbered}

has_nul-append : (s t : Text) → has_nul s ≡ false → has_nul t ≡ false → has_nul (s ++ t) ≡ false
unfolding has_nul
has_nul-append [] t h k = k
has_nul-append (c ∷ s) t h k = elim (Bool-cases (c == 0)) [
  | inl z ↦ cc (h, z)
  | inr z ↦ rw z (has_nul-append s t (rw z at h) k)
]

digit_front :
    (b : Bool) (n : ℕ) (front : Text)
    → has_nul front ≡ false
    → has_nul (if b then (b'0' + n) ∷ [] else front ++ (b'0' + n % 10) ∷ []) ≡ false
unfolding has_nul
digit_front true n front h = ground arith
digit_front false n front h = has_nul-append front ((b'0' + n % 10) ∷ []) h (ground arith)

digits_clean : (fuel n : ℕ) → has_nul (digits_on fuel n) ≡ false
unfolding digits_on has_nul
digits_clean zero n = refl
digits_clean (suc fuel) n = digit_front (ltb n 10) n _ (digits_clean fuel (n / 10))

pub numbered_clean :
    (front rest : Text) (n : ℕ)
    → has_nul front ≡ false
    → has_nul rest ≡ false
    → c_string (numbered front n rest) ≡ some (numbered front n rest)
unfolding numbered decimal c_string
numbered_clean front rest n h k = rw (
    has_nul-append (front ++ digits_on (suc n) n) rest
      (has_nul-append front (digits_on (suc n) n) h (digits_clean (suc n) n)) k)
