-- ===== src/Compile/Exprs/Calls.antt =====
-- The instructions of a call, and what they compute.
use protosnirk.Prelude.{
  ◌≡◌, refl, ◌∙◌, ap, sym, subst, eq_of_some, true, Bool-cases, inl, inr, Option, none, some, List,
  [], ◌∷◌, ◌++◌, Text, codes, text_eq,
}
use protosnirk.Prelude.Maps.{lookup}
use protosnirk.Prelude.States.{◌>>=◌, ◌>>◌, gets, modify, expect, pure, total}
use protosnirk.Prelude.Returns.{Returns, returns, Returns-after, Returns-weaken}
use protosnirk.Ast.Index.{scoped_id_has_eq}
use protosnirk.Ast.Identifier
use protosnirk.Ast.Identifier.{Identifier}
use protosnirk.Identify.ConcreteType.{
  ConcreteType, FnParams, named_type, fn_type, no_params, fn_param,
}
use protosnirk.Llvm.Sys.{Ref, LlvmSys}
use protosnirk.Llvm.Execution.{Datum, kind, real, bit, View, Keeps, Worths, IsExecution}
use protosnirk.Compile.State.{
  ModuleCompiler, Compiles, on_builder, on_llvm, set_current, pop, scoped, llvm_type_of_concrete,
}
use protosnirk.Compile.Exprs.{
  visit_named, visit_params, visit_fn_call, call_of, after_args, emit_call,
}
use protosnirk.Compile.Exprs.Meaning.{Meaning, for_some, named_values, params_values, call_value}
use protosnirk.Compile.Exprs.Facts.{
  Goes, HasFn, HasFn-Goes, Fits, Computed, Goes-trans, Goes-refl, Computed-Goes, Fits-Goes, take,
}
use protosnirk.Compile.Exprs.Steps.{type_step, concrete-Types}

module _ {W F : Type 0} (x : View W F) where
  Worths-Keeps :
      {w w' : W} (vs : List Ref) (ds : List (Datum F))
      → Keeps x w w'
      → Worths x w vs ds
      → Worths x w' vs ds
  Worths-Keeps [] [] k h = tt
  Worths-Keeps [] (d ∷ ds) k h = h
  Worths-Keeps (v ∷ vs) [] k h = h
  Worths-Keeps (v ∷ vs) (d ∷ ds) k h = (k.worths v d h.0, Worths-Keeps vs ds k h.1)

  Worths-append :
      (w : W) (us vs : List Ref) (cs ds : List (Datum F))
      → Worths x w us cs
      → Worths x w vs ds
      → Worths x w (us ++ vs) (cs ++ ds)
  Worths-append w [] vs [] ds h k = k
  Worths-append w [] vs (c ∷ cs) ds h k = absurd h
  Worths-append w (u ∷ us) vs [] ds h k = absurd h
  Worths-append w (u ∷ us) vs (c ∷ cs) ds h k = (h.0, Worths-append w us vs cs ds h.1 k)

-- A visit computes the value, if there is one, wherever the variables have theirs.
abbrev pub Computes :
    {W F : Type 0} → View W F → Meaning F → Compiles W (Unit {0}) → Option (Datum F) → Type 0
Computes {W} {F} x m visit o =
    (t : ModuleCompiler W) (d : Datum F)
    → Fits x m t
    → o ≡ some d
    → Returns (λ _. Computed x t d) (visit t)

-- The visits of arguments, and the values of the arguments.
abbrev pub Agree :
    {W F : Type 0}
    → View W F
    → Meaning F
    → List (Text × Compiles W (Unit {0}))
    → List (Text × Option (Datum F))
    → Type 0
Agree x m [] [] = Unit
Agree x m ((n, visit) ∷ vs) ((k, o) ∷ os) = (n ≡ k) × Computes x m visit o × Agree x m vs os
Agree x m _ _ = ⊥

-- The arguments are at hand, and nothing has been pushed.
record Taken {W F : Type 0} (x : View W F) (s : ModuleCompiler W) (ds : List (Datum F))
    (vs : List Ref) (t : ModuleCompiler W) : Type 0 where
  goes : Goes x s t
  ir_code : t.ir_code ≡ s.ir_code
  worths : Worths x t.world vs ds

pub for_some-inv :
    {A B : Type 0} (o : Option A) (f : A → Option B) {b : B}
    → for_some o f ≡ some b
    → (a : A) × (o ≡ some a) × (f a ≡ some b)
for_some-inv none f h = cc
for_some-inv (some a) f h = (a, refl, h)

module _ {W F : Type 0} ⦃l : LlvmSys W⦄ {x : View W F} (m : Meaning F) where
  -- The argument that has the name.
  visit_first :
      (visit : Compiles W (Unit {0})) (o : Option (Datum F)) (s : ModuleCompiler W)
      (ds : List (Datum F))
      → Computes x m visit o
      → Fits x m s
      → for_some o (λ d. some (d ∷ [])) ≡ some ds
      → Returns (Taken x s ds) ((visit >> (pop >>= λ v. pure (v ∷ []))) s)
  unfolding pure
  visit_first visit none s ds h fits e = cc
  visit_first visit (some d) s ds h fits e =
      take (Taken x s ds) visit (λ v. pure (v ∷ [])) (h s d fits refl)
        λ v t g i w k. returns (v ∷ []) t record {
          goes = g;
          ir_code = i;
          worths = subst (λ cs. Worths x t.world (v ∷ []) cs) (eq_of_some e) (w, tt);
        }

  visit_named-Taken :
      (name : Text) (vs : List (Text × Compiles W (Unit {0}))) (os : List (Text × Option (Datum F)))
      (s : ModuleCompiler W) (ds : List (Datum F))
      → Agree x m vs os
      → Fits x m s
      → named_values name os ≡ some ds
      → Returns (Taken x s ds) (visit_named name vs s)
  unfolding visit_named named_values pure
  visit_named-Taken name [] [] s ds h fits e = returns _ _ record {
    goes = Goes-refl s;
    ir_code = refl;
    worths = subst (λ cs. Worths x s.world [] cs) (eq_of_some e) tt;
  }
  visit_named-Taken name ((n, visit) ∷ vs) ((k, o) ∷ os) s ds (same_name, h, rest) fits e =
      elim (Bool-cases (text_eq k name)) [
        | inl yes_ ↦ rw (same_name, yes_) (visit_first visit o s ds h fits (rw yes_ at e))
        | inr no_ ↦ rw (same_name, no_) (visit_named-Taken name vs os s ds rest fits (rw no_ at e))
      ]
  visit_named-Taken name [] (o ∷ os) s ds h fits e = absurd h
  visit_named-Taken name (v ∷ vs) [] s ds h fits e = absurd h

  visit_params-Taken :
      (ps : FnParams) (vs : List (Text × Compiles W (Unit {0})))
      (os : List (Text × Option (Datum F))) (s : ModuleCompiler W) (ds : List (Datum F))
      → Agree x m vs os
      → Fits x m s
      → params_values ps os ≡ some ds
      → Returns (Taken x s ds) (visit_params ps vs s)
  unfolding visit_params params_values pure ◌>>=◌
  visit_params-Taken no_params vs os s ds h fits e = returns [] s record {
    goes = Goes-refl s;
    ir_code = refl;
    worths = subst (λ cs. Worths x s.world [] cs) (eq_of_some e) tt;
  }
  visit_params-Taken (fn_param name ty rest) vs os s ds h fits e =
      let (cs, e₁, f₁) = for_some-inv (named_values name os) _ e in
      let (es, e₂, f₂) = for_some-inv (params_values rest os) _ f₁ in
      Returns-after (Taken x s ds) (visit_named-Taken name vs os s cs h fits e₁) λ us t a.
        Returns-after (Taken x s ds)
          (visit_params-Taken rest vs os t es h (Fits-Goes fits a.goes) e₂)
          λ ws u b. returns (us ++ ws) u record {
            goes = Goes-trans a.goes b.goes;
            ir_code = b.ir_code ∙ a.ir_code;
            worths =
                subst (λ js. Worths x u.world (us ++ ws) js) (eq_of_some f₂)
                  (Worths-append x u.world us ws cs es (Worths-Keeps x us cs b.goes.keeps a.worths)
                    b.worths);
          }

module _ {W F : Type 0} ⦃l : LlvmSys W⦄ {x : View W F} (m : Meaning F)
    (laws : IsExecution l m.arithmetic x) where
  -- The end of a call, where its type is known.
  emit_call-Computed :
      (s : ModuleCompiler W) (ident : Identifier) (func : Ref) (vs : List Ref) (ty : Ref)
      (ds : List (Datum F)) (d : Datum F)
      → x.reached s.world ≡ true
      → Worths x s.world vs ds
      → x.runs func ds ≡ some d
      → x.kind_of ty ≡ kind d
      → Returns (λ _. Computed x s d) ((emit_call ident func vs (kind d) >> set_current ty) s)
  unfolding emit_call ◌>>◌ ◌>>=◌ on_builder total modify
  emit_call-Computed s ident func vs ty ds (real n) r h e k =
      let name = codes "call_" ++ Identifier.name ident in
      let c = laws.call_law s.builder func vs name s.world ds (real n) r h e in
      returns tt _ record {
        value = (l.build_call s.builder func vs name s.world).0;
        goes = record { keeps = c.keeps; scope = refl; types = refl };
        pushed = refl;
        worth = c.worth;
        has_kind = k;
      }
  emit_call-Computed s ident func vs ty ds (bit b) r h e k =
      let name = codes "call_" ++ Identifier.name ident in
      let c = laws.call_law s.builder func vs name s.world ds (bit b) r h e in
      returns tt _ record {
        value = (l.build_call s.builder func vs name s.world).0;
        goes = record { keeps = c.keeps; scope = refl; types = refl };
        pushed = refl;
        worth = c.worth;
        has_kind = k;
      }

  -- What follows the arguments of a call.
  after_args-Computed :
      (s : ModuleCompiler W) (ident : Identifier) (vs : List Ref) (ds : List (Datum F))
      (d : Datum F)
      → x.reached s.world ≡ true
      → (f : HasFn x s ident.id ds d) → Worths x s.world vs ds
      → Returns (λ _. Computed x s d) (after_args ident f.ret vs s)
  unfolding after_args scoped ◌>>=◌ gets expect pure on_llvm total
  after_args-Computed s ident vs ds d r f h = rw f.in_scope (
      Returns-after (λ _. Computed x s d)
        (type_step s (kind d) (llvm_type_of_concrete f.ret)
          (concrete-Types laws f.ret (kind d) s.context s.world f.has_kind))
        λ ty t y.
          let z = laws.get_type_kind_law ty t.world in
          let u = record t { world = (l.get_type_kind ty t.world).1 } in
          let g = Goes-trans y.goes (record { keeps = z.1; scope = refl; types = refl }) in
          rw (z.0 ∙ y.has_kind) (
            Returns-weaken (λ _. Computed x s d)
              (emit_call-Computed u ident f.func vs ty ds d (g.keeps.reached r)
                (Worths-Keeps x vs ds g.keeps h) f.gives y.has_kind)
              λ _ w c. Computed-Goes w g y.ir_code c))

  call_value-inv :
      (f : List (Datum F) → Option (Datum F)) (o : Option ConcreteType)
      (os : List (Text × Option (Datum F))) {d : Datum F}
      → call_value f o os ≡ some d
      → (ps : FnParams) × (ret : ConcreteType) × (ds : List (Datum F)) × (o ≡ some (fn_type ps ret))
        × (params_values ps os ≡ some ds)
        × (f ds ≡ some d)
  unfolding call_value
  call_value-inv f none os h = cc
  call_value-inv f (some (named_type name)) os h = cc
  call_value-inv f (some (fn_type ps ret)) os h =
      let (ds, e, g) = for_some-inv (params_values ps os) f h in (ps, ret, ds, refl, e, g)

  fn_type_params :
      {ps qs : FnParams} {r q : ConcreteType}
      → ◌≡◌ {A = Option ConcreteType} (some (fn_type ps r)) (some (fn_type qs q))
      → ps ≡ qs
  fn_type_params h = cc

  pub visit_fn_call-Computed :
      (s : ModuleCompiler W) (ident : Identifier) (vs : List (Text × Compiles W (Unit {0})))
      (os : List (Text × Option (Datum F))) (d : Datum F)
      → Agree x m vs os
      → Fits x m s
      → call_value (m.fn ident.id) (lookup ident.id m.types) os ≡ some d
      → Returns (λ _. Computed x s d) (visit_fn_call ident vs s)
  unfolding visit_fn_call call_of ◌>>=◌ gets expect pure
  visit_fn_call-Computed s ident vs os d h fits e =
      let (ps, ret, ds, known, values, gives) = call_value-inv (m.fn ident.id) _ os e in
      let f = fits.fns ident.id ds d gives in
      let same_params =
        fn_type_params (sym f.typed ∙ ap (λ ts. lookup ident.id ts) fits.types ∙ known) in
      rw f.typed (
        Returns-after (λ _. Computed x s d)
          (visit_params-Taken m f.params vs os s ds h fits (rw same_params values))
          λ us t a.
            Returns-weaken (λ _. Computed x s d)
              (after_args-Computed t ident us ds d (a.goes.keeps.reached fits.reached)
                (HasFn-Goes f a.goes) a.worths)
              λ _ w c. Computed-Goes w a.goes a.ir_code c)
