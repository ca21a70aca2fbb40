-- ===== src/Compile/Exprs/Worth.antt =====
-- The code of an expression computes what the expression means.
use protosnirk.Prelude.{◌≡◌, refl, ◌∙◌, some}
use protosnirk.Prelude.States.{◌>>=◌, ◌>>◌}
use protosnirk.Prelude.Returns.{Returns, Returns-weaken}
use protosnirk.Lex.Span.{Span}
use protosnirk.Ast.Operator.{negation}
use protosnirk.Ast.Expression.{
  Expression, CallArguments, literal, variable_ref, binary_op, unary_op, if_expression, fn_call,
  assignment, no_arguments, argument,
}
use protosnirk.Llvm.Sys.{LlvmSys}
use protosnirk.Llvm.Execution.{Datum, real, View, IsExecution}
use protosnirk.Compile.State.{ModuleCompiler, pop}
use protosnirk.Compile.Exprs.{visit_expression, argument_visits, finish_binary, zero_literal}
use protosnirk.Compile.Exprs.Meaning.{Meaning, eval, argument_values, IsCompilable, AreCompilable}
use protosnirk.Compile.Exprs.Facts.{Fits, Computed, Computed-Goes, Goes-trans, Fits-Goes, take}
use protosnirk.Compile.Exprs.Steps.{visit_literal-Computed}
use protosnirk.Compile.Exprs.Operators.{
  visit_var_ref-Computed, finish_binary-Computed, finish_unary-Computed,
}
use protosnirk.Compile.Exprs.Calls.{Agree, for_some-inv, visit_fn_call-Computed}

module _ {W F : Type 0} ⦃l : LlvmSys W⦄ {x : View W F} (m : Meaning F)
    (laws : IsExecution l m.arithmetic x) where
  mutual
    unfolding eval argument_values IsCompilable AreCompilable visit_expression argument_visits

    expression-Computed :
        (e : Expression) (s : ModuleCompiler W) (d : Datum F)
        → IsCompilable m e
        → Fits x m s
        → eval m e ≡ some d
        → Returns (λ _. Computed x s d) (visit_expression e s)
    expression-Computed (literal lit) s d c fits h = visit_literal-Computed laws s lit.value d h
    expression-Computed (variable_ref ident) s d c fits h =
        visit_var_ref-Computed laws s ident d fits.reached (fits.vars ident.id d h) c
    expression-Computed (binary_op op lhs rhs sp) s d (c₁, c₂) fits h =
        let (p, e₁, f₁) = for_some-inv (eval m lhs) _ h in
        let (q, e₂, f₂) = for_some-inv (eval m rhs) _ f₁ in
        take (λ _. Computed x s d) (visit_expression lhs)
          (λ u. visit_expression rhs >> (pop >>= λ v. finish_binary op u v))
          (expression-Computed lhs s p c₁ fits e₁)
          λ u t g i hu k.
            take (λ _. Computed x s d) (visit_expression rhs) (λ v. finish_binary op u v)
              (expression-Computed rhs t q c₂ (Fits-Goes fits g) e₂)
              λ v t' g' i' hv k'.
                let j = Goes-trans g g' in
                Returns-weaken (λ _. Computed x s d)
                  (finish_binary-Computed laws op t' u v p q d (j.keeps.reached fits.reached)
                    (g'.keeps.worths u p hu) hv f₂)
                  λ _ w r. Computed-Goes w j (i' ∙ i) r
    expression-Computed (unary_op op e sp) s d (c₁, c₂) fits h =
        let (p, e₁, f₁) = for_some-inv (eval m e) _ h in
        finish_unary-Computed m laws op s (visit_expression e) p d c₁ fits.reached f₁
          (expression-Computed e s p c₂ fits e₁)
    expression-Computed (if_expression c t e sp) s d _ fits h = cc
    expression-Computed (fn_call ident args sp) s d c fits h =
        visit_fn_call-Computed m laws s ident (argument_visits args) (argument_values m args) d
          (arguments-Agree args c) fits h
    expression-Computed (assignment ident e) s d c fits h = cc

    arguments-Agree :
        (args : CallArguments)
        → AreCompilable m args
        → Agree x m (argument_visits args) (argument_values m args)
    arguments-Agree no_arguments c = tt
    arguments-Agree (argument param e rest) (c₁, c₂) =
        (refl, λ t d fits h. expression-Computed e t d c₁ fits h, arguments-Agree rest c₂)

  -- Where an expression has a value, and the variables and functions of its meaning are those of the
  -- compiler's state, the compiler returns: it has pushed exactly one value, which is worth the value
  -- of the expression; the current type is one for it; and variables, cells and types are what they
  -- were. A conditional and an assignment have no value here, names have no NUL, and a negation means
  -- that zero is subtracted from its operand.
  pub visit_expression-Computed :
      (e : Expression) (s : ModuleCompiler W) (d : Datum F)
      → IsCompilable m e
      → Fits x m s
      → eval m e ≡ some d
      → Returns (λ _. Computed x s d) (visit_expression e s)
  visit_expression-Computed = expression-Computed

  -- A negation of an expression with the value `n` computes `n - 0`, not `0 - n`.
  pub visit_negation-Computed :
      (e : Expression) (sp : Span) (s : ModuleCompiler W) (n : F)
      → IsCompilable m e
      → Fits x m s
      → eval m e ≡ some (real n)
      → Returns
          (λ _. Computed x s (real (m.arithmetic.sub n (m.arithmetic.of_decimal zero_literal))))
          (visit_expression (unary_op negation e sp) s)
  unfolding visit_expression
  visit_negation-Computed e sp s n c fits h =
      let minus_zero = λ (k : F). m.arithmetic.sub k (m.arithmetic.of_decimal zero_literal) in
      finish_unary-Computed (record m { negated = minus_zero }) laws negation s (visit_expression e)
        (real n) (real (minus_zero n)) (λ k. refl) fits.reached refl
        (expression-Computed e s (real n) c fits h)
