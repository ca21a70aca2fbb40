-- ===== src/Compile/Exprs/Steps.antt =====
-- The single steps of the compiler, with what the instructions that they add are worth.
use protosnirk.Prelude.{
  ◌≡◌, refl, ◌∙◌, ap, subst, eq_of_some, Bool, true, false, Option, none, some, ◌∷◌, Text,
  if◌then◌else◌,
}
use protosnirk.Prelude.Maps.{lookup}
use protosnirk.Prelude.States.{Action, ◌>>=◌, ◌>>◌, gets, modify, expect, pure, panic, total}
use protosnirk.Prelude.Returns.{Returns, returns, Returns-after}
use protosnirk.Ast.Index.{ScopedId, scoped_id_has_eq}
use protosnirk.Ast.Expression.{LiteralValue, bool, float, unit}
use protosnirk.Identify.ConcreteType.{ConcreteType, named_type, fn_type}
use protosnirk.Llvm.Sys.{Ref, TypeKind, LlvmSys, Call, call, void_kind, integer_kind, double_kind}
use protosnirk.Llvm.Values.{c_string, has_nul, int1, double, void}
use protosnirk.Llvm.Execution.{
  Datum, kind, real, bit, Arithmetic, View, Keeps, Makes, Types, IsExecution,
}
use protosnirk.Compile.State.{
  ModuleCompiler, Compiles, on_world, on_context, on_builder, on_llvm, set_current, push,
  llvm_type_of_concrete, llvm_type_of,
}
use protosnirk.Compile.Exprs.{visit_literal}
use protosnirk.Compile.Exprs.Meaning.{literal_datum}
use protosnirk.Compile.Exprs.Facts.{
  Goes, Computed, Valued, Typed, concrete_kind, Goes-trans, Keeps-trans,
}

-- The type of a value becomes the current type, and the value is pushed.
abbrev pub with_type : {W : Type 0} → Ref → Compiles W Ref → Compiles W (Unit {0})
with_type v m = do ty ← m; set_current ty; push v

-- A name without a NUL.
pub c_string_lem : (t : Text) → has_nul t ≡ false → c_string t ≡ some t
unfolding c_string
c_string_lem t h = rw h

world_step {ℓ} :
    {A : Type ℓ} {W : Type 0} {P : A → W → Type 0} (Q : A → ModuleCompiler W → Type 0)
    (s : ModuleCompiler W) {r : Option (A × W)}
    → Returns P r
    → ((a : A) (w : W) → P a w → Q a (record s { world = w }))
    → Returns Q (on_world s r)
unfolding on_world
world_step Q s (returns a w p) k = returns a (record s { world = w }) (k a w p)

module _ {W F : Type 0} {x : View W F} where
  Goes-world :
      (s : ModuleCompiler W) (w : W) → Keeps x s.world w → Goes x s (record s { world = w })
  Goes-world s w k = record { keeps = k; scope = refl; types = refl }

  -- An instruction whose value is worth `d`.
  Makes-world :
      (s : ModuleCompiler W) (d : Datum F) {r : Option (Ref × W)}
      → Returns (λ v w. Makes x s.world d (v, w)) r
      → Returns (Valued x s d) (on_world s r)
  Makes-world s d h = world_step (Valued x s d) s h λ v w mk. record {
    goes = Goes-world s w mk.keeps;
    ir_code = refl;
    worth = mk.worth;
    current = refl;
  }

  pub builder_step :
      (s : ModuleCompiler W) (d : Datum F) (m : Ref → Action W Ref)
      → Returns (λ v w. Makes x s.world d (v, w)) (m s.builder s.world)
      → Returns (Valued x s d) (on_builder m s)
  unfolding on_builder
  builder_step s d m = Makes-world s d

  pub llvm_step :
      (s : ModuleCompiler W) (d : Datum F) (m : Action W Ref)
      → Returns (λ v w. Makes x s.world d (v, w)) (m s.world)
      → Returns (Valued x s d) (on_llvm m s)
  unfolding on_llvm
  llvm_step s d m = Makes-world s d

  -- A type of LLVM.
  pub type_step :
      (s : ModuleCompiler W) (k : TypeKind) (m : Ref → Action W Ref)
      → Returns (λ ty w. Types x s.world k (ty, w)) (m s.context s.world)
      → Returns (Typed x s k) (on_context m s)
  unfolding on_context
  type_step s k m h = world_step (Typed x s k) s h λ ty w t. record {
    goes = Goes-world s w t.keeps;
    ir_code = refl;
    has_kind = t.has_kind;
    current = refl;
  }

  Valued-Goes :
      {s t : ModuleCompiler W} {d : Datum F} {v : Ref} {u : ModuleCompiler W}
      → Valued x s d v t
      → Goes x t u
      → u.ir_code ≡ t.ir_code
      → u.current_type ≡ t.current_type
      → Valued x s d v u
  Valued-Goes h g e c = record {
    goes = Goes-trans h.goes g;
    ir_code = e ∙ h.ir_code;
    worth = g.keeps.worths _ _ h.worth;
    current = c ∙ h.current;
  }

  pub with_type-Computed :
      {s t : ModuleCompiler W} {d : Datum F} {v : Ref} (m : Compiles W Ref)
      → Valued x s d v t
      → Returns (Typed x t (kind d)) (m t)
      → Returns (λ _. Computed x s d) (with_type v m t)
  unfolding ◌>>=◌ ◌>>◌ modify
  with_type-Computed {s} {t} {d} {v} m h r =
      Returns-after (λ _. Computed x s d) r
        λ ty u y. returns tt _ record {
          value = v;
          goes =
              (let g = Goes-trans h.goes y.goes in
                record { keeps = g.keeps; scope = g.scope; types = g.types });
          pushed = ap (λ vs. v ∷ vs) (y.ir_code ∙ h.ir_code);
          worth = y.goes.keeps.worths _ _ h.worth;
          has_kind = y.has_kind;
        }

module _ {W F : Type 0} ⦃l : LlvmSys W⦄ {a : Arithmetic F} {x : View W F}
    (laws : IsExecution l a x) where
  -- The three names, by the tests on them.
  named-Types :
      (u v f : Bool) (k : TypeKind) (c : Ref) (w : W)
      → (if u
          then some void_kind
          else if v
          then some integer_kind
          else if f
          then some double_kind
          else none)
        ≡ some k
      → Returns
          (λ ty w'. Types x w k (ty, w'))
          ((if u then void c else if v then int1 c else if f then double c else panic) w)
  unfolding total
  named-Types true v f k c w h =
      returns _ _ (subst (λ j. Types x w j (l.void_type c w)) (eq_of_some h) (laws.void_law c w))
  named-Types false true f k c w h =
      returns _ _ (subst (λ j. Types x w j (l.int1_type c w)) (eq_of_some h) (laws.int1_law c w))
  named-Types false false true k c w h =
      returns _ _
        (subst (λ j. Types x w j (l.double_type c w)) (eq_of_some h) (laws.double_law c w))
  named-Types false false false k c w h = cc

  -- `llvm_type_of_concrete` on the type of a scalar, or of nothing.
  pub concrete-Types :
      (ty : ConcreteType) (k : TypeKind) (c : Ref) (w : W)
      → concrete_kind ty ≡ some k
      → Returns (λ t w'. Types x w k (t, w')) (llvm_type_of_concrete ty c w)
  unfolding llvm_type_of_concrete
  concrete-Types (named_type name) k c w h = named-Types _ _ _ k c w h
  concrete-Types (fn_type ps ret) k c w h = cc

  -- `llvm_type_of` on a variable.
  pub llvm_type_of-Typed :
      (s : ModuleCompiler W) (id : ScopedId) (ty : ConcreteType) (k : TypeKind)
      → lookup id s.types ≡ some ty
      → concrete_kind ty ≡ some k
      → Returns (Typed x s k) (llvm_type_of id s)
  unfolding llvm_type_of ◌>>=◌ gets expect pure
  llvm_type_of-Typed s id ty k e h =
      rw e (type_step s k (llvm_type_of_concrete ty) (concrete-Types ty k s.context s.world h))

  -- A constant made of a type of LLVM, which is made again for the current type.
  constant-Computed :
      (s : ModuleCompiler W) (d : Datum F) (mk : Ref → Call W Ref) (k : Ref → Call W Ref)
      → ((c : Ref) (w : W) → Types x w (kind d) (mk c w))
      → ((c : Ref) (w₀ w : W) → Makes x w d (k (mk c w₀).0 w))
      → Returns
          (λ _. Computed x s d)
          ((on_context (λ c. call (mk c)) >>= λ ty.
              on_llvm (call (k ty)) >>= λ value. with_type value (on_context (λ c. call (mk c))))
            s)
  unfolding ◌>>=◌ on_context on_llvm total
  constant-Computed s d mk k types makes =
      let c = s.context in
      let r = mk c s.world in
      let q = k r.0 r.1 in
      let g = Keeps-trans (types c s.world).keeps (makes c s.world r.1).keeps in
      with_type-Computed {s = s} {t = record s { world = q.1 }} {d = d} {v = q.0}
        (on_context (λ c. call (mk c)))
        (record {
          goes = record { keeps = g; scope = refl; types = refl };
          ir_code = refl;
          worth = (makes c s.world r.1).worth;
          current = refl;
        })
        (type_step (record s { world = q.1 }) (kind d) (λ c. call (mk c))
          (returns _ _ (types c q.1)))

  -- A literal.
  pub visit_literal-Computed :
      (s : ModuleCompiler W) (v : LiteralValue) (d : Datum F)
      → literal_datum a v ≡ some d
      → Returns (λ _. Computed x s d) (visit_literal v s)
  unfolding visit_literal
  visit_literal-Computed s (bool true) d h =
      subst (λ e. Returns (λ _. Computed x s e) (visit_literal (bool true) s)) (eq_of_some h)
        (constant-Computed s (bit true) l.int1_type (λ t. l.const_int t 1 false) laws.int1_law
          (λ c w₀ w. laws.const_int_law c 1 false w₀ w))
  visit_literal-Computed s (bool false) d h =
      subst (λ e. Returns (λ _. Computed x s e) (visit_literal (bool false) s)) (eq_of_some h)
        (constant-Computed s (bit false) l.int1_type (λ t. l.const_int t 0 false) laws.int1_law
          (λ c w₀ w. laws.const_int_law c 0 false w₀ w))
  visit_literal-Computed s (float f) d h =
      subst (λ e. Returns (λ _. Computed x s e) (visit_literal (float f) s)) (eq_of_some h)
        (constant-Computed s (real (a.of_decimal f)) l.double_type (λ t. l.const_real t f)
          laws.double_law (λ c w₀ w. laws.const_real_law _ f w (laws.double_law c w₀).has_kind))
  visit_literal-Computed s unit d h = cc
