-- ===== src/Compile/Items/Returns.antt =====
-- The return at the end of a function, and what statements have left in front of it.
use protosnirk.Prelude.{◌≡◌, refl, ap, ◌∙◌, false, some, List, [], ◌∷◌, ◌++◌, length, arith}
use protosnirk.Prelude.States.{◌>>=◌, ◌>>◌, pure, total}
use protosnirk.Prelude.Returns.{Returns, returns, Returns-after}
use protosnirk.Ast.Stmt.{Statements, expression}
use protosnirk.Ast.Expression.{Expression}
use protosnirk.Llvm.Sys.{Ref, LlvmSys}
use protosnirk.Llvm.Execution.{Datum, View, IsExecution}
use protosnirk.Compile.State.{ModuleCompiler, on_builder}
use protosnirk.Compile.Exprs.Meaning.{Meaning, eval, IsCompilable}
use protosnirk.Compile.Exprs.Worth.{visit_expression-Computed}
use protosnirk.Compile.Exprs.Facts.{Fits}
use protosnirk.Compile.Stmts.{walk_block, visit_stmt}
use protosnirk.Compile.Stmts.Meaning.{Steps}
use protosnirk.Compile.Stmts.Straight.{walk_block-Ran}
use protosnirk.Compile.Items.{append_return, pop_remaining}

no_left : (left : List Ref) → length left ≡ 0 → left ≡ []
no_left [] h = refl
no_left (v ∷ vs) h = absurd (omega (arith, h))

-- The state behind a return: of the value `v`, in the world `w`.
pub record Returned {W : Type 0} ⦃l : LlvmSys W⦄ (v : Ref) (w : W) (vs : List Ref)
    (t : ModuleCompiler W) : Type 0 where
  pub ir_code : t.ir_code ≡ vs
  pub built : t.world ≡ (l.build_ret t.builder v w).1

module _ {W F : Type 0} ⦃l : LlvmSys W⦄ {x : View W F} where
  -- A block of declarations and assignments, with no value that stands on its own, leaves `ir_code` as
  -- it was: the return that is appended behind it, in a function that returns a value, takes a value
  -- that was there before the function, if there is one.
  pub append_return-stale :
      {m o : Meaning F} {ss : Statements} (v : Ref) (vs : List Ref)
      → Steps m ss 0 o
      → IsExecution l m.arithmetic x
      → (s : ModuleCompiler W) → Fits x m s
      → s.ir_code ≡ v ∷ vs
      → Returns (λ _ t. (w : W) × Returned v w vs t) ((walk_block ss >> append_return false) s)
  unfolding append_return pop_remaining pure total on_builder ◌>>=◌ ◌>>◌
  append_return-stale v vs h laws s fits stale =
      Returns-after (λ _ t. (w : W) × Returned v w vs t) (walk_block-Ran h laws s fits)
        λ _ t r.
          rw (r.pushed ∙ ap (λ us. us ++ s.ir_code) (no_left r.left r.count) ∙ stale)
            (returns tt _ (t.world, record { ir_code = refl; built = refl }))

  -- Where the last statement of a function is an expression with a value, the function returns a value
  -- that is worth it, and `ir_code` is as it was in front of the expression.
  pub append_return-Computed :
      (m : Meaning F)
      → IsExecution l m.arithmetic x
      → (e : Expression) (s : ModuleCompiler W) (d : Datum F) → IsCompilable m e
      → Fits x m s
      → eval m e ≡ some d
      → Returns
          (λ _ t. (v : Ref) × (w : W) × (x.worth w v ≡ some d) × Returned v w s.ir_code t)
          ((visit_stmt (expression e) >> append_return false) s)
  unfolding visit_stmt append_return pop_remaining pure total on_builder ◌>>=◌ ◌>>◌
  append_return-Computed m laws e s d c fits h =
      Returns-after (λ _ t. (v : Ref) × (w : W) × (x.worth w v ≡ some d) × Returned v w s.ir_code t)
        (visit_expression-Computed m laws e s d c fits h)
        λ _ t r.
          rw r.pushed
            (returns tt _ (r.value, t.world, r.worth, record { ir_code = refl; built = refl }))
