-- ===== src/Compile/Blocks/Branches.antt =====
-- The branch on a condition of an `if` block.
use protosnirk.Prelude.{ℕ, ◌+◌, ◌≡◌, refl, ◌∙◌, ap, Bool, true, false, not, some, List, ◌∷◌, codes}
use protosnirk.Prelude.States.{◌>>=◌, ◌>>◌, expect, pure, total}
use protosnirk.Llvm.Sys.{Ref, LlvmSys, int_eq}
use protosnirk.Llvm.Values.{has_nul}
use protosnirk.Llvm.Builder.{build_icmp}
use protosnirk.Llvm.Execution.{bit, same, Arithmetic, View, IsExecution}
use protosnirk.Compile.State.{ModuleCompiler, pop, on_builder}
use protosnirk.Compile.Blocks.{block_at, branch_on_condition, numbered}
use protosnirk.Compile.Blocks.Names.{numbered_clean}

same-false : (b : Bool) → same b false ≡ not b
same-false true = refl
same-false false = refl

-- The state behind the branch: at the start of the first block.
abbrev pub branched :
    {W : Type 0} ⦃l : LlvmSys W⦄
    → ModuleCompiler W
    → List Ref
    → Ref
    → Ref
    → Ref
    → W
    → ModuleCompiler W
branched ⦃l⦄ s vs c true_block false_block w = record s {
  ir_code = vs;
  world =
      (l.position_builder_at_end s.builder true_block
        (l.build_cond_br s.builder c true_block false_block w).1).1;
}

module _ {W F : Type 0} ⦃l : LlvmSys W⦄ {a : Arithmetic F} {x : View W F}
    (laws : IsExecution l a x) where
  -- Where a condition of an `if` block has the value `b`, the branch is on a value that is worth the
  -- negation of `b`: it goes to the block of the conditional if the condition is false, and past it if
  -- the condition is true.
  pub branch_on_condition_negates :
      (s : ModuleCompiler W) (v zero_ true_block false_block : Ref) (vs blocks : List Ref) (ix : ℕ)
      (b : Bool)
      → x.reached s.world ≡ true
      → s.ir_code ≡ v ∷ vs
      → x.worth s.world v ≡ some (bit b)
      → x.worth s.world zero_ ≡ some (bit false)
      → block_at blocks ix ≡ some true_block
      → block_at blocks (ix + 1) ≡ some false_block
      → (c : Ref) × (w : W) × (x.worth w c ≡ some (bit (not b)))
        × (branch_on_condition zero_ blocks ix s
            ≡ some (tt, branched s vs c true_block false_block w))
  unfolding branch_on_condition pop build_icmp has_nul expect pure total on_builder ◌>>=◌ ◌>>◌
  branch_on_condition_negates s v z t f vs blocks ix b r p hv hz ht hf =
      let name = numbered (codes "if_") ix (codes "_cmp") in
      let q = l.build_icmp s.builder int_eq v z name s.world in
      let mk = laws.icmp_law s.builder v z name s.world b false r hv hz in
      (
        q.0,
        q.1,
        mk.worth ∙ ap (λ d. some (bit d)) (same-false b),
        rw (p, numbered_clean (codes "if_") (codes "_cmp") ix refl refl, ht, hf),
      )
