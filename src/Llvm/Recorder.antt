-- ===== src/Llvm/Recorder.antt =====
-- An implementation of the interface that satisfies the laws of code without branches: it computes
-- each value while the instruction is added. Numbers are natural.
pub mod Laws
use Prim.Native.Nat.{◌/◌}
use protosnirk.Prelude.{
  ◌∙◌, ℕ, zero, suc, ◌+◌, ◌-◌, ◌*◌, ◌%◌, ◌≡◌, ◌≢◌, refl, ap, Bool, true, false, Option, none, some,
  List, [], ◌∷◌, ◌++◌, Text, length, ltb, leb, ◌==◌, not, inr,
}
use protosnirk.Llvm.Sys.{
  Ref, TypeKind, RealPredicate, LlvmSys, Call, void_kind, double_kind, integer_kind, real_oeq,
  real_one, real_olt, real_ole, real_ogt, real_oge,
}
use protosnirk.Llvm.Execution.{
  Datum, real, bit, kind, same, Arithmetic, View, Keeps, Makes, Worths, IsExecution,
}

pub record Recorder : Type 0 where
  pub values : List (Datum ℕ)
  pub cells : List (TypeKind × Option (Datum ℕ))

module _ {A : Type 0} where
  abbrev pub get_elem? : List A → ℕ → Option A
  get_elem? [] i = none
  get_elem? (x ∷ xs) zero = some x
  get_elem? (x ∷ xs) (suc i) = get_elem? xs i

  abbrev pub set : List A → ℕ → A → List A
  set [] i v = []
  set (x ∷ xs) zero v = v ∷ xs
  set (x ∷ xs) (suc i) v = x ∷ set xs i v

abbrev pub compare : RealPredicate → ℕ → ℕ → Bool
compare real_oeq m n = m == n
compare real_one m n = not (m == n)
compare real_olt m n = ltb m n
compare real_ole m n = leb m n
compare real_ogt m n = ltb n m
compare real_oge m n = leb n m

abbrev pub naturals : Arithmetic ℕ
naturals = record {
  add = λ m n. m + n;
  sub = λ m n. m - n;
  mul = λ m n. m * n;
  div = λ m n. m / n;
  rem = λ m n. m % n;
  compare = compare;
  of_decimal = λ d. d.digits;
}

abbrev pub type_kind : Ref → TypeKind
type_kind zero = void_kind
type_kind (suc zero) = integer_kind
type_kind (suc (suc n)) = double_kind

-- The only function that can be called subtracts.
abbrev pub subtracts : Ref → List (Datum ℕ) → Option (Datum ℕ)
subtracts f (real m ∷ real n ∷ []) = some (real (m - n))
subtracts f ds = none

abbrev pub recorded : View Recorder ℕ
recorded = record {
  reached = λ w. true;
  worth = λ w v. get_elem? w.values v;
  cell = λ w p. get_elem? w.cells p;
  kind_of = type_kind;
  runs = subtracts;
}

-- A new value.
abbrev pub new_value : Datum ℕ → Call Recorder Ref
new_value d w = (length w.values, record w { values = w.values ++ d ∷ [] })

abbrev on_numbers : (ℕ → ℕ → Datum ℕ) → Option (Datum ℕ) → Option (Datum ℕ) → Call Recorder Ref
on_numbers f (some (real m)) (some (real n)) w = new_value (f m n) w
on_numbers f _ _ w = (0, w)

abbrev pub operate : (ℕ → ℕ → Datum ℕ) → Ref → Ref → Ref → Text → Call Recorder Ref
operate f b u v t w = on_numbers f (get_elem? w.values u) (get_elem? w.values v) w

abbrev on_bits : Option (Datum ℕ) → Option (Datum ℕ) → Call Recorder Ref
on_bits (some (bit m)) (some (bit n)) w = new_value (bit (same m n)) w
on_bits _ _ w = (0, w)

abbrev new_some : Option (Datum ℕ) → Call Recorder Ref
new_some none w = (0, w)
new_some (some d) w = new_value d w

abbrev loaded : Option (TypeKind × Option (Datum ℕ)) → Option (Datum ℕ)
loaded none = none
loaded (some (k, o)) = o

abbrev store : Option (Datum ℕ) → Ref → Call Recorder Ref
store none p w = (0, w)
store (some d) p w = (0, record w { cells = set w.cells p (kind d, some d) })

abbrev cons_some : Option (Datum ℕ) → Option (List (Datum ℕ)) → Option (List (Datum ℕ))
cons_some (some d) (some ds) = some (d ∷ ds)
cons_some _ _ = none

abbrev pub collect : Recorder → List Ref → Option (List (Datum ℕ))
collect w [] = some []
collect w (v ∷ vs) = cons_some (get_elem? w.values v) (collect w vs)

abbrev run : Ref → Option (List (Datum ℕ)) → Option (Datum ℕ)
run f none = none
run f (some ds) = subtracts f ds

abbrev pub type_of_datum : Option (Datum ℕ) → Ref
type_of_datum none = 0
type_of_datum (some (real n)) = 2
type_of_datum (some (bit b)) = 1

instance abbrev pub recorder : LlvmSys Recorder
recorder = record {
  create_builder = λ c w. (1, w);
  create_module = λ n c w. (1, w);
  append_basic_block = λ c f n w. (1, w);
  add_function = λ m n t w. (1, w);
  set_module_data_layout = λ m d w. (tt, w);
  set_target = λ m t w. (tt, w);
  verify_module = λ m w. (false, w);
  dump_module = λ m w. (tt, w);
  int1_type = λ c w. (1, w);
  double_type = λ c w. (2, w);
  void_type = λ c w. (0, w);
  function_type = λ r ps v w. (3, w);
  get_type_kind = λ t w. (type_kind t, w);
  get_return_type = λ t w. (2, w);
  const_int = λ t n s. new_value (bit (n % 2 == 1));
  const_real = λ t n. new_value (real n.digits);
  type_of = λ v w. (type_of_datum (get_elem? w.values v), w);
  get_params = λ f w. ([], w);
  set_value_name = λ v n w. (tt, w);
  verify_function = λ f w. (false, w);
  add_incoming = λ p vs bs w. (tt, w);
  position_builder_at_end = λ b k w. (tt, w);
  get_insert_block = λ b w. (1, w);
  get_basic_block_parent = λ k w. (1, w);
  build_ret_void = λ b w. (0, w);
  build_ret = λ b v w. (0, w);
  build_br = λ b k w. (0, w);
  build_cond_br = λ b c t e w. (0, w);
  build_fadd = operate (λ m n. real (m + n));
  build_fsub = operate (λ m n. real (m - n));
  build_fmul = operate (λ m n. real (m * n));
  build_fdiv = operate (λ m n. real (m / n));
  build_frem = operate (λ m n. real (m % n));
  build_alloca =
      λ b t n w. (length w.cells, record w { cells = w.cells ++ (type_kind t, none) ∷ [] });
  build_load = λ b p n w. new_some (loaded (get_elem? w.cells p)) w;
  build_store = λ b v p w. store (get_elem? w.values v) p w;
  build_icmp = λ b p u v t w. on_bits (get_elem? w.values u) (get_elem? w.values v) w;
  build_fcmp = λ b p. operate (λ m n. bit (compare p m n)) b;
  build_phi = λ b t n w. (0, w);
  build_call = λ b f vs n w. new_some (run f (collect w vs)) w;
  create_function_pass_manager = λ m w. (1, w);
  initialize_function_pass_manager = λ m w. (true, w);
  run_function_pass_manager = λ m f w. (false, w);
  add_basic_alias_analysis_pass = λ m w. (tt, w);
  add_instruction_combining_pass = λ m w. (tt, w);
  add_reassociate_pass = λ m w. (tt, w);
  add_gvn_pass = λ m w. (tt, w);
  add_cfg_simplification_pass = λ m w. (tt, w);
  initialize_native_target = λ w. (false, w);
  get_default_target_triple = λ w. ([], w);
  get_host_cpu_name = λ w. ([], w);
  get_host_cpu_features = λ w. ([], w);
  get_first_target = λ w. (1, w);
  get_target_from_triple = λ t f w. (inr 1, w);
  create_target_machine = λ t a b c o r k w. (1, w);
  create_target_data_layout = λ m w. (1, w);
}
