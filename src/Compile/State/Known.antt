-- ===== src/Compile/State/Known.antt =====
-- Which types of the program have a type of LLVM.
use protosnirk.Prelude.{
  ◌≡◌, refl, ◌∙◌, Bool, true, false, ◌&&◌, ◌||◌, Option, none, some, Text, codes, text_eq,
  if◌then◌else◌,
}
use protosnirk.Prelude.States.{Action, after, pure, panic, total, ◌>>=◌}
use protosnirk.Identify.ConcreteType.{
  ConcreteType, FnParams, named_type, fn_type, no_params, fn_param,
}
use protosnirk.Llvm.Sys.{Ref, LlvmSys}
use protosnirk.Llvm.Values.{int1, double, void}
use protosnirk.Compile.State.{llvm_named, llvm_type_of_concrete, llvm_types}

-- The names `()`, `bool` and `float`.
abbrev pub is_primitive : Text → Bool
is_primitive name =
    text_eq name (codes "()") || text_eq name (codes "bool") || text_eq name (codes "float")

-- All names in a type are primitive, at any depth.
unfoldable mutual
  pub all_primitive : ConcreteType → Bool
  all_primitive (named_type name) = is_primitive name
  all_primitive (fn_type ps ret) = all_primitive_params ps && all_primitive ret

  pub all_primitive_params : FnParams → Bool
  all_primitive_params no_params = true
  all_primitive_params (fn_param name ty rest) = all_primitive ty && all_primitive_params rest

abbrev pub returns_some {ℓ} : {A : Type ℓ} → Option A → Bool
returns_some none = false
returns_some (some a) = true

and_true : (b : Bool) → (b && true) ≡ b
and_true true = refl
and_true false = refl

returns_some-after {ℓ κ} :
    {W : Type 0} {A : Type ℓ} {B : Type κ} (o : Option (A × W)) (f : A → Action W B) (b e : Bool)
    → returns_some o ≡ b
    → ((a : A) (w : W) → returns_some (f a w) ≡ e)
    → returns_some (after o f) ≡ (b && e)
returns_some-after none f b e h k = rw (← h) refl
returns_some-after (some (a, w)) f b e h k = rw (← h) (k a w)

module _ {W : Type 0} ⦃l : LlvmSys W⦄ where
  named-primitive :
      (u v f : Bool) (c : Ref) (w : W)
      → returns_some ((if u then void c else if v then int1 c else if f then double c else panic) w)
        ≡ (u || v || f)
  unfolding total panic
  named-primitive true v f c w = refl
  named-primitive false true f c w = refl
  named-primitive false false true c w = refl
  named-primitive false false false c w = refl

  mutual
    unfolding llvm_type_of_concrete llvm_types llvm_named all_primitive all_primitive_params pure
        total ◌>>=◌

    concrete-primitive :
        (ty : ConcreteType) (c : Ref) (w : W)
        → returns_some (llvm_type_of_concrete ty c w) ≡ all_primitive ty
    concrete-primitive (named_type name) c w = named-primitive _ _ _ c w
    concrete-primitive (fn_type ps ret) c w =
        returns_some-after (llvm_types ps c w) _ (all_primitive_params ps) (all_primitive ret)
          (params-primitive ps c w)
          λ qs u.
            returns_some-after (llvm_type_of_concrete ret c u) _ (all_primitive ret) true
              (concrete-primitive ret c u) (λ r v. refl)
            ∙ and_true (all_primitive ret)

    params-primitive :
        (ps : FnParams) (c : Ref) (w : W)
        → returns_some (llvm_types ps c w) ≡ all_primitive_params ps
    params-primitive no_params c w = refl
    params-primitive (fn_param name ty rest) c w =
        returns_some-after (llvm_type_of_concrete ty c w) _ (all_primitive ty)
          (all_primitive_params rest) (concrete-primitive ty c w)
          λ p u.
            returns_some-after (llvm_types rest c u) _ (all_primitive_params rest) true
              (params-primitive rest c u) (λ r v. refl)
            ∙ and_true (all_primitive_params rest)

  -- Whatever LLVM does, the compiler finds a type of LLVM exactly for the types whose names are `()`,
  -- `bool` and `float` at every depth, in parameters and in returns; for every other type it panics.
  pub llvm_type_of_concrete-returns :
      (ty : ConcreteType) (c : Ref) (w : W)
      → returns_some (llvm_type_of_concrete ty c w) ≡ all_primitive ty
  llvm_type_of_concrete-returns = concrete-primitive
