-- ===== src/Llvm/Execution.antt =====
-- What the reference of LLVM says of code without branches: what the values and the cells of memory
-- are when the instructions in front of the builder's position have been run. The program has one
-- builder.
use protosnirk.Prelude.{
  ◌%◌, ◌≡◌, ◌≢◌, Bool, true, false, Option, none, some, List, [], ◌∷◌, Text, ◌==◌,
}
use protosnirk.Ast.Expression.{Decimal}
use protosnirk.Llvm.Sys.{
  Ref, TypeKind, RealPredicate, LlvmSys, Call, void_kind, double_kind, integer_kind, int_eq,
}

-- A number, or a value of the type `i1`.
pub data Datum (F : Type 0) : Type 0 where
  real : F → Datum F
  bit : Bool → Datum F

abbrev pub kind : {F : Type 0} → Datum F → TypeKind
kind (real x) = double_kind
kind (bit b) = integer_kind

abbrev pub same : Bool → Bool → Bool
same true b = b
same false true = false
same false false = true

-- The arithmetic of the type `double`.
pub record Arithmetic (F : Type 0) : Type 0 where
  pub add : F → F → F
  pub sub : F → F → F
  pub mul : F → F → F
  pub div : F → F → F
  pub rem : F → F → F
  pub compare : RealPredicate → F → F → Bool
  pub of_decimal : Decimal → F

pub record View (W F : Type 0) : Type 0 where
  -- Whether a run comes to the builder's position.
  pub reached : W → Bool
  -- A value that a run has computed there.
  pub worth : W → Ref → Option (Datum F)
  -- A cell that a run has allocated there: the kind of its type, and what was stored last.
  pub cell : W → Ref → Option (TypeKind × Option (Datum F))
  -- The kind of a type, which never changes.
  pub kind_of : Ref → TypeKind
  -- What a function gives for its arguments.
  pub runs : Ref → List (Datum F) → Option (Datum F)

-- What stays true while instructions are added that do not write to a cell.
pub record Keeps {W F : Type 0} (x : View W F) (w w' : W) : Type 0 where
  pub reached : x.reached w ≡ true → x.reached w' ≡ true
  pub worths : (v : Ref) (d : Datum F) → x.worth w v ≡ some d → x.worth w' v ≡ some d
  pub cells :
      (p : Ref) (c : TypeKind × Option (Datum F)) → x.cell w p ≡ some c → x.cell w' p ≡ some c

-- The new value is worth `d`, and nothing else changes.
pub record Makes {W F : Type 0} (x : View W F) (w : W) (d : Datum F) (r : Ref × W) : Type 0 where
  pub worth : x.worth r.1 r.0 ≡ some d
  pub keeps : Keeps x w r.1

-- The type has a kind, and nothing changes.
pub record Types {W F : Type 0} (x : View W F) (w : W) (k : TypeKind) (r : Ref × W) : Type 0 where
  pub has_kind : x.kind_of r.0 ≡ k
  pub keeps : Keeps x w r.1

pub record Allocates {W F : Type 0} (x : View W F) (w : W) (k : TypeKind) (r : Ref × W)
    : Type 0 where
  pub unused : x.cell w r.0 ≡ none
  pub allocated : x.cell r.1 r.0 ≡ some (k, none)
  pub keeps : Keeps x w r.1

pub record Stores {W F : Type 0} (x : View W F) (w : W) (p : Ref) (d : Datum F) (w' : W)
    : Type 0 where
  pub reached : x.reached w ≡ true → x.reached w' ≡ true
  pub worths : (v : Ref) (e : Datum F) → x.worth w v ≡ some e → x.worth w' v ≡ some e
  pub stored : x.cell w' p ≡ some (kind d, some d)
  pub others :
      (q : Ref) (c : TypeKind × Option (Datum F))
      → q ≢ p
      → x.cell w q ≡ some c
      → x.cell w' q ≡ some c

-- The values are worth the data, one by one.
abbrev pub Worths : {W F : Type 0} → View W F → W → List Ref → List (Datum F) → Type 0
Worths x w [] [] = Unit
Worths x w (v ∷ vs) (d ∷ ds) = (x.worth w v ≡ some d) × Worths x w vs ds
Worths x w _ _ = ⊥

-- An instruction on two numbers.
abbrev pub Operates :
    {W F : Type 0} → View W F → (F → F → Datum F) → (Ref → Ref → Ref → Text → Call W Ref) → Type 0
Operates {W} {F} x op build =
    (b u v : Ref) (t : Text) (w : W) (m n : F)
    → x.reached w ≡ true
    → x.worth w u ≡ some (real m)
    → x.worth w v ≡ some (real n)
    → Makes x w (op m n) (build b u v t w)

pub record IsExecution {W F : Type 0} (l : LlvmSys W) (a : Arithmetic F) (x : View W F)
    : Type 0 where
  pub int1_law : (c : Ref) (w : W) → Types x w integer_kind (l.int1_type c w)
  pub double_law : (c : Ref) (w : W) → Types x w double_kind (l.double_type c w)
  pub void_law : (c : Ref) (w : W) → Types x w void_kind (l.void_type c w)
  pub get_type_kind_law :
      (t : Ref) (w : W)
      → ((l.get_type_kind t w).0 ≡ x.kind_of t) × Keeps x w (l.get_type_kind t w).1
  pub type_of_law :
      (v : Ref) (w : W) (d : Datum F) → x.worth w v ≡ some d → Types x w (kind d) (l.type_of v w)
  -- A constant of `i1` is the last bit of a number.
  pub const_int_law :
      (c n : Ref) (s : Bool) (w₀ w : W)
      → Makes x w (bit (n % 2 == 1)) (l.const_int (l.int1_type c w₀).0 n s w)
  pub const_real_law :
      (t : Ref) (n : Decimal) (w : W)
      → x.kind_of t ≡ double_kind
      → Makes x w (real (a.of_decimal n)) (l.const_real t n w)
  pub fadd_law : Operates x (λ m n. real (a.add m n)) l.build_fadd
  pub fsub_law : Operates x (λ m n. real (a.sub m n)) l.build_fsub
  pub fmul_law : Operates x (λ m n. real (a.mul m n)) l.build_fmul
  pub fdiv_law : Operates x (λ m n. real (a.div m n)) l.build_fdiv
  pub frem_law : Operates x (λ m n. real (a.rem m n)) l.build_frem
  pub fcmp_law :
      (p : RealPredicate) → Operates x (λ m n. bit (a.compare p m n)) (λ b. l.build_fcmp b p)
  pub icmp_law :
      (b u v : Ref) (t : Text) (w : W) (m n : Bool)
      → x.reached w ≡ true
      → x.worth w u ≡ some (bit m)
      → x.worth w v ≡ some (bit n)
      → Makes x w (bit (same m n)) (l.build_icmp b int_eq u v t w)
  pub alloca_law :
      (b t : Ref) (n : Text) (w : W)
      → x.reached w ≡ true
      → Allocates x w (x.kind_of t) (l.build_alloca b t n w)
  pub load_law :
      (b p : Ref) (n : Text) (w : W) (d : Datum F)
      → x.reached w ≡ true
      → x.cell w p ≡ some (kind d, some d)
      → Makes x w d (l.build_load b p n w)
  pub store_law :
      (b v p : Ref) (w : W) (d : Datum F) (o : Option (Datum F))
      → x.reached w ≡ true
      → x.worth w v ≡ some d
      → x.cell w p ≡ some (kind d, o)
      → Stores x w p d (l.build_store b v p w).1
  pub call_law :
      (b f : Ref) (vs : List Ref) (n : Text) (w : W) (ds : List (Datum F)) (d : Datum F)
      → x.reached w ≡ true
      → Worths x w vs ds
      → x.runs f ds ≡ some d
      → Makes x w d (l.build_call b f vs n w)
