-- ===== src/Llvm/Recorder/Laws.antt =====
-- The recorded run satisfies the laws of code without branches.
use Prim.Native.Nat.{◌/◌}
use protosnirk.Prelude.{
  ◌∙◌, ℕ, zero, suc, ◌+◌, ◌-◌, ◌*◌, ◌%◌, ◌≡◌, ◌≢◌, refl, ap, true, none, some, List, [], ◌∷◌, ◌++◌,
  Text, length, ◌==◌,
}
use protosnirk.Llvm.Sys.{Ref}
use protosnirk.Llvm.Execution.{Datum, real, bit, kind, same, Keeps, Makes, Worths, IsExecution}
use protosnirk.Llvm.Recorder.{
  Recorder, compare, naturals, type_kind, recorded, new_value, operate, collect, type_of_datum,
  recorder, get_elem?, set,
}

module _ {A : Type 0} where
  get_elem?-append :
      (xs ys : List A) (i : ℕ) (a : A) → get_elem? xs i ≡ some a → get_elem? (xs ++ ys) i ≡ some a
  get_elem?-append [] ys i a h = cc
  get_elem?-append (x ∷ xs) ys zero a h = h
  get_elem?-append (x ∷ xs) ys (suc i) a h = get_elem?-append xs ys i a h

  get_elem?-last : (xs : List A) (a : A) → get_elem? (xs ++ a ∷ []) (length xs) ≡ some a
  get_elem?-last [] a = refl
  get_elem?-last (x ∷ xs) a = get_elem?-last xs a

  get_elem?-length : (xs : List A) → get_elem? xs (length xs) ≡ none
  get_elem?-length [] = refl
  get_elem?-length (x ∷ xs) = get_elem?-length xs

  get_elem?-set_self :
      (xs : List A) (i : ℕ) (a b : A) → get_elem? xs i ≡ some a → get_elem? (set xs i b) i ≡ some b
  get_elem?-set_self [] i a b h = cc
  get_elem?-set_self (x ∷ xs) zero a b h = refl
  get_elem?-set_self (x ∷ xs) (suc i) a b h = get_elem?-set_self xs i a b h

  get_elem?-set :
      (xs : List A) (i j : ℕ) (b : A) → j ≢ i → get_elem? (set xs i b) j ≡ get_elem? xs j
  get_elem?-set [] i j b h = refl
  get_elem?-set (x ∷ xs) zero zero b h = absurd (h refl)
  get_elem?-set (x ∷ xs) zero (suc j) b h = refl
  get_elem?-set (x ∷ xs) (suc i) zero b h = refl
  get_elem?-set (x ∷ xs) (suc i) (suc j) b h = get_elem?-set xs i j b (λ e. h (ap suc e))

Keeps-refl : (w : Recorder) → Keeps recorded w w
Keeps-refl w = record { reached = λ h. h; worths = λ v d h. h; cells = λ p c h. h }

new_value-Makes : (d : Datum ℕ) (w : Recorder) → Makes recorded w d (new_value d w)
new_value-Makes d w = record {
  worth = get_elem?-last w.values d;
  keeps = record {
    reached = λ h. h;
    worths = λ v e h. get_elem?-append w.values (d ∷ []) v e h;
    cells = λ p c h. h;
  };
}

operate-Makes :
    (f : ℕ → ℕ → Datum ℕ) (b u v : Ref) (t : Text) (w : Recorder) (m n : ℕ)
    → true ≡ true
    → get_elem? w.values u ≡ some (real m)
    → get_elem? w.values v ≡ some (real n)
    → Makes recorded w (f m n) (operate f b u v t w)
operate-Makes f b u v t w m n r p q = rw (p, q) (new_value-Makes (f m n) w)

collect-Worths :
    (w : Recorder) (vs : List Ref) (ds : List (Datum ℕ))
    → Worths recorded w vs ds
    → collect w vs ≡ some ds
collect-Worths w [] [] h = refl
collect-Worths w [] (d ∷ ds) h = absurd h
collect-Worths w (v ∷ vs) [] h = absurd h
collect-Worths w (v ∷ vs) (d ∷ ds) (e, h) = rw (e, collect-Worths w vs ds h)

type_of_datum-kind : (d : Datum ℕ) → type_kind (type_of_datum (some d)) ≡ kind d
type_of_datum-kind (real n) = refl
type_of_datum-kind (bit b) = refl

pub recorder-IsExecution : IsExecution recorder naturals recorded
recorder-IsExecution = record {
  int1_law = λ c w. record { has_kind = refl; keeps = Keeps-refl w };
  double_law = λ c w. record { has_kind = refl; keeps = Keeps-refl w };
  void_law = λ c w. record { has_kind = refl; keeps = Keeps-refl w };
  get_type_kind_law = λ t w. (refl, Keeps-refl w);
  type_of_law = λ v w d h. record { has_kind = rw h (type_of_datum-kind d); keeps = Keeps-refl w };
  const_int_law = λ c n s w₀ w. new_value-Makes (bit (n % 2 == 1)) w;
  const_real_law = λ t n w h. new_value-Makes (real n.digits) w;
  fadd_law = operate-Makes (λ m n. real (m + n));
  fsub_law = operate-Makes (λ m n. real (m - n));
  fmul_law = operate-Makes (λ m n. real (m * n));
  fdiv_law = operate-Makes (λ m n. real (m / n));
  frem_law = operate-Makes (λ m n. real (m % n));
  fcmp_law = λ p. operate-Makes (λ m n. bit (compare p m n));
  icmp_law = λ b u v t w m n r p q. rw (p, q) (new_value-Makes (bit (same m n)) w);
  alloca_law = λ b t n w r. record {
    unused = get_elem?-length w.cells;
    allocated = get_elem?-last w.cells (type_kind t, none);
    keeps = record {
      reached = λ h. h;
      worths = λ v d h. h;
      cells = λ p c h. get_elem?-append w.cells ((type_kind t, none) ∷ []) p c h;
    };
  };
  load_law = λ b p n w d r h. rw h (new_value-Makes d w);
  store_law = λ b v p w d o r h k. rw h record {
    reached = λ e. e;
    worths = λ u e g. g;
    stored = get_elem?-set_self w.cells p (kind d, o) (kind d, some d) k;
    others = λ q c ne g. get_elem?-set w.cells p q (kind d, some d) ne ∙ g;
  };
  call_law = λ b f vs n w ds d r h e. rw (collect-Worths w vs ds h, e) (new_value-Makes d w);
}
