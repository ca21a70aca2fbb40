-- ===== src/Compile/Exprs/Operators.antt =====
-- The instructions of variables and operators, and what they compute.
use protosnirk.Prelude.{
  ◌≡◌, refl, ◌∙◌, sym, ap, subst, eq_of_some, Bool, true, false, some, ◌∷◌, ◌++◌, Text, codes,
}
use protosnirk.Prelude.States.{Action, ◌>>=◌, ◌>>◌, gets, modify, expect, pure, total}
use protosnirk.Prelude.Returns.{Returns, returns, Returns-after, Returns-weaken}
use protosnirk.Ast.Index.{scoped_id_has_eq}
use protosnirk.Ast.Identifier
use protosnirk.Ast.Identifier.{Identifier}
use protosnirk.Ast.Operator.{
  BinaryOperator, UnaryOperator, addition, subtraction, multiplication, division, modulus, equality,
  non_equality, less_than, greater_than, less_than_equals, greater_than_equals, negation,
}
use protosnirk.Llvm.Sys.{
  Ref, Call, call, real_one, real_oeq, real_olt, real_ole, real_ogt, real_oge, int_eq, TypeKind,
  LlvmSys,
}
use protosnirk.Llvm.Values.{c_string, has_nul, int1, get_type, get_kind}
use protosnirk.Llvm.Builder.{
  build_load, build_fadd, build_fsub, build_fmul, build_fdiv, build_frem, build_fcmp, build_icmp,
}
use protosnirk.Llvm.Execution.{
  Datum, kind, real, bit, same, Arithmetic, View, Makes, Types, IsExecution,
}
use protosnirk.Compile.State.{
  ModuleCompiler, Compiles, on_context, on_builder, on_llvm, push, scoped, llvm_type_of,
}
use protosnirk.Compile.Exprs.{
  zero_literal, visit_var_ref, finish_binary, build_binary, build_equality, finish_unary,
}
use protosnirk.Compile.Exprs.Meaning.{Meaning, binary, OperatorFits, unary, on_reals}
use protosnirk.Compile.Exprs.Facts.{Goes, HasVar, Computed, Computed-Goes, Keeps-trans, take}
use protosnirk.Compile.Exprs.Steps.{
  with_type, with_type-Computed, builder_step, type_step, llvm_type_of-Typed,
}

module _ {W F : Type 0} ⦃l : LlvmSys W⦄ {a : Arithmetic F} {x : View W F}
    (laws : IsExecution l a x) where
  build_load-Makes :
      (b p : Ref) (name : Text) (w : W) (d : Datum F)
      → x.reached w ≡ true
      → x.cell w p ≡ some (kind d, some d)
      → has_nul name ≡ false
      → Returns (λ v w'. Makes x w d (v, w')) (build_load b p (codes "load_" ++ name) w)
  unfolding build_load c_string has_nul expect pure total ◌>>=◌
  build_load-Makes b p name w d r h n =
      rw n (returns _ _ (laws.load_law b p (codes "load_" ++ name) w d r h))

  pub visit_var_ref-Computed :
      (s : ModuleCompiler W) (ident : Identifier) (d : Datum F)
      → x.reached s.world ≡ true
      → HasVar x s ident.id d
      → has_nul (Identifier.name ident) ≡ false
      → Returns (λ _. Computed x s d) (visit_var_ref ident s)
  unfolding visit_var_ref scoped ◌>>=◌ gets expect pure
  visit_var_ref-Computed s ident d r h n = rw h.in_scope (
      Returns-after (λ _. Computed x s d)
        (builder_step s d (λ b. build_load b h.cell (codes "load_" ++ Identifier.name ident))
          (build_load-Makes s.builder h.cell (Identifier.name ident) s.world d r h.holds n))
        λ v t y.
          with_type-Computed (llvm_type_of ident.id) y (
            llvm_type_of-Typed laws t ident.id h.type (kind d) (rw y.goes.types h.typed)
              h.has_kind))

  -- An instruction, and the type of its value.
  result-Computed :
      (s : ModuleCompiler W) (d : Datum F) (m : Ref → Action W Ref) (ty : Ref → Call W Ref)
      → ((c : Ref) (w : W) → Types x w (kind d) (ty c w))
      → Returns (λ v w. Makes x s.world d (v, w)) (m s.builder s.world)
      → Returns
          (λ _. Computed x s d)
          ((on_builder m >>= λ v. with_type v (on_context (λ c. call (ty c)))) s)
  unfolding ◌>>=◌ total
  result-Computed s d m ty types r =
      Returns-after (λ _. Computed x s d) (builder_step s d m r)
        λ v t y.
          with_type-Computed (on_context (λ c. call (ty c))) y
            (type_step t (kind d) (λ c. call (ty c)) (returns _ _ (types t.context t.world)))

  -- The kind of a value, from its type.
  kind_of_value :
      {B : Type 0} (s : ModuleCompiler W) (v : Ref) (d : Datum F)
      (Q : B → ModuleCompiler W → Type 0) (k : TypeKind → Compiles W B)
      → x.worth s.world v ≡ some d
      → ((t : ModuleCompiler W) → Goes x s t → t.ir_code ≡ s.ir_code → Returns Q (k (kind d) t))
      → Returns Q ((on_llvm (get_type v) >>= λ ty. on_llvm (get_kind ty) >>= k) s)
  unfolding ◌>>=◌ on_llvm total
  kind_of_value s v d Q k h f =
      let r = l.type_of v s.world in
      let q = l.get_type_kind r.0 r.1 in
      let y = laws.type_of_law v s.world d h in
      let z = laws.get_type_kind_law r.0 r.1 in
      rw (z.0 ∙ y.has_kind) (
        f (record s { world = q.1 })
          (record { keeps = Keeps-trans y.keeps z.1; scope = refl; types = refl }) refl)

  finish_reals :
      (op : BinaryOperator) (s : ModuleCompiler W) (u v : Ref) (m n : F)
      → x.reached s.world ≡ true
      → x.worth s.world u ≡ some (real m)
      → x.worth s.world v ≡ some (real n)
      → Returns (λ _. Computed x s (on_reals a op m n)) (finish_binary op u v s)
  unfolding finish_binary build_binary build_fadd build_fsub build_fmul build_fdiv build_frem
      build_fcmp expect pure c_string has_nul total ◌>>=◌ on_llvm on_context
  finish_reals addition s u v m n r p q =
      result-Computed s (real (a.add m n)) (λ b. build_fadd b u v (codes "add")) l.double_type
        laws.double_law (returns _ _ (laws.fadd_law s.builder u v (codes "add") s.world m n r p q))
  finish_reals subtraction s u v m n r p q =
      result-Computed s (real (a.sub m n)) (λ b. build_fsub b u v (codes "sub")) l.double_type
        laws.double_law (returns _ _ (laws.fsub_law s.builder u v (codes "sub") s.world m n r p q))
  finish_reals multiplication s u v m n r p q =
      result-Computed s (real (a.mul m n)) (λ b. build_fmul b u v (codes "mul")) l.double_type
        laws.double_law (returns _ _ (laws.fmul_law s.builder u v (codes "mul") s.world m n r p q))
  finish_reals division s u v m n r p q =
      result-Computed s (real (a.div m n)) (λ b. build_fdiv b u v (codes "div")) l.double_type
        laws.double_law (returns _ _ (laws.fdiv_law s.builder u v (codes "div") s.world m n r p q))
  finish_reals modulus s u v m n r p q =
      result-Computed s (real (a.rem m n)) (λ b. build_frem b u v (codes "rem")) l.double_type
        laws.double_law (returns _ _ (laws.frem_law s.builder u v (codes "rem") s.world m n r p q))
  finish_reals non_equality s u v m n r p q =
      result-Computed s (bit (a.compare real_one m n))
        (λ b. build_fcmp b real_one u v (codes "neqtmp")) l.int1_type laws.int1_law
        (returns _ _ (laws.fcmp_law real_one s.builder u v (codes "neqtmp") s.world m n r p q))
  finish_reals less_than s u v m n r p q =
      result-Computed s (bit (a.compare real_olt m n))
        (λ b. build_fcmp b real_olt u v (codes "lttmp")) l.int1_type laws.int1_law
        (returns _ _ (laws.fcmp_law real_olt s.builder u v (codes "lttmp") s.world m n r p q))
  finish_reals less_than_equals s u v m n r p q =
      result-Computed s (bit (a.compare real_ole m n))
        (λ b. build_fcmp b real_ole u v (codes "letmp")) l.int1_type laws.int1_law
        (returns _ _ (laws.fcmp_law real_ole s.builder u v (codes "letmp") s.world m n r p q))
  finish_reals greater_than s u v m n r p q =
      result-Computed s (bit (a.compare real_ogt m n))
        (λ b. build_fcmp b real_ogt u v (codes "gttmp")) l.int1_type laws.int1_law
        (returns _ _ (laws.fcmp_law real_ogt s.builder u v (codes "gttmp") s.world m n r p q))
  finish_reals greater_than_equals s u v m n r p q =
      result-Computed s (bit (a.compare real_oge m n))
        (λ b. build_fcmp b real_oge u v (codes "getmp")) l.int1_type laws.int1_law
        (returns _ _ (laws.fcmp_law real_oge s.builder u v (codes "getmp") s.world m n r p q))
  finish_reals equality s u v m n r p q =
      kind_of_value s u (real m) (λ _. Computed x s (bit (a.compare real_oeq m n)))
        (λ k. build_equality k u v >>= λ value. with_type value (on_context int1)) p
        λ t g i.
          Returns-weaken (λ _. Computed x s _)
            (result-Computed t (bit (a.compare real_oeq m n))
              (λ b. build_fcmp b real_oeq u v (codes "eq_double")) l.int1_type laws.int1_law
              (returns _ _ (
                laws.fcmp_law real_oeq t.builder u v (codes "eq_double") t.world m n
                  (g.keeps.reached r) (g.keeps.worths u _ p) (g.keeps.worths v _ q))))
            λ _ w c. Computed-Goes w g i c

  finish_bits :
      (s : ModuleCompiler W) (u v : Ref) (m n : Bool)
      → x.reached s.world ≡ true
      → x.worth s.world u ≡ some (bit m)
      → x.worth s.world v ≡ some (bit n)
      → Returns (λ _. Computed x s (bit (same m n))) (finish_binary equality u v s)
  unfolding finish_binary build_binary build_icmp expect pure c_string has_nul total ◌>>=◌ on_llvm
      on_context
  finish_bits s u v m n r p q =
      kind_of_value s u (bit m) (λ _. Computed x s (bit (same m n)))
        (λ k. build_equality k u v >>= λ value. with_type value (on_context int1)) p
        λ t g i.
          Returns-weaken (λ _. Computed x s _)
            (result-Computed t (bit (same m n)) (λ b. build_icmp b int_eq u v (codes "eq_int"))
              l.int1_type laws.int1_law
              (returns _ _ (
                laws.icmp_law t.builder u v (codes "eq_int") t.world m n (g.keeps.reached r)
                  (g.keeps.worths u _ p) (g.keeps.worths v _ q))))
            λ _ w c. Computed-Goes w g i c

  pub finish_binary-Computed :
      (op : BinaryOperator) (s : ModuleCompiler W) (u v : Ref) (p q d : Datum F)
      → x.reached s.world ≡ true
      → x.worth s.world u ≡ some p
      → x.worth s.world v ≡ some q
      → binary a op p q ≡ some d
      → Returns (λ _. Computed x s d) (finish_binary op u v s)
  finish_binary-Computed op s u v (real m) (real n) d r hp hq h =
      subst (λ e. Returns (λ _. Computed x s e) (finish_binary op u v s)) (eq_of_some h)
        (finish_reals op s u v m n r hp hq)
  finish_binary-Computed equality s u v (bit m) (bit n) d r hp hq h =
      subst (λ e. Returns (λ _. Computed x s e) (finish_binary equality u v s)) (eq_of_some h)
        (finish_bits s u v m n r hp hq)
  finish_binary-Computed op s u v (bit m) (bit n) d r hp hq h = cc
  finish_binary-Computed op s u v (real m) (bit n) d r hp hq h = cc
  finish_binary-Computed op s u v (bit m) (real n) d r hp hq h = cc

module _ {W F : Type 0} ⦃l : LlvmSys W⦄ {x : View W F} (m : Meaning F)
    (laws : IsExecution l m.arithmetic x) where
  pub finish_unary-Computed :
      (op : UnaryOperator) (s : ModuleCompiler W) (visit : Compiles W (Unit {0})) (p d : Datum F)
      → OperatorFits m op
      → x.reached s.world ≡ true
      → unary m.negated op p ≡ some d
      → Returns (λ _. Computed x s p) (visit s)
      → Returns (λ _. Computed x s d) ((visit >> finish_unary op) s)
  unfolding finish_unary build_fsub expect pure c_string has_nul total ◌>>=◌ ◌>>◌ on_llvm on_context
      on_builder modify
  finish_unary-Computed negation s visit (real n) d fits r h c =
      take (λ _. Computed x s d) visit _ c
        λ v t g i w k.
          let z = l.double_type t.context t.world in
          let y = laws.double_law t.context t.world in
          let q = l.const_real z.0 zero_literal z.1 in
          let makes = laws.const_real_law z.0 zero_literal z.1 y.has_kind in
          let before = Keeps-trans y.keeps makes.keeps in
          let f =
            laws.fsub_law t.builder v q.0 (codes "negate") q.1 n
              (m.arithmetic.of_decimal zero_literal) (before.reached (g.keeps.reached r))
              (before.worths v _ w) makes.worth in
          returns tt _ record {
            value = (l.build_fsub t.builder v q.0 (codes "negate") q.1).0;
            goes = record {
              keeps = Keeps-trans g.keeps (Keeps-trans before f.keeps);
              scope = g.scope;
              types = g.types;
            };
            pushed = ap (λ vs. (l.build_fsub t.builder v q.0 (codes "negate") q.1).0 ∷ vs) i;
            worth = f.worth ∙ ap (λ y. some (real y)) (sym (fits n)) ∙ h;
            has_kind = y.has_kind ∙ ap kind (eq_of_some h);
          }
  finish_unary-Computed UnaryOperator.addition s visit (real n) d fits r h c =
      take (λ _. Computed x s d) visit push c
        λ v t g i w k. returns tt _ record {
          value = v;
          goes = record { keeps = g.keeps; scope = g.scope; types = g.types };
          pushed = ap (λ vs. v ∷ vs) i;
          worth = w ∙ h;
          has_kind = k ∙ ap kind (eq_of_some h);
        }
  finish_unary-Computed op s visit (bit b) d fits r h c = cc
