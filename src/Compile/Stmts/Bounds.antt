-- ===== src/Compile/Stmts/Bounds.antt =====
-- The basic blocks that an `if` block takes by index.
use protosnirk.Prelude.{
  ℕ, zero, suc, ◌+◌, ◌-◌, ◌*◌, ◌≤◌, ◌≡◌, ap, Bool, false, refl, some, List, [], ◌∷◌, ◌++◌, length,
  length-append, codes, arith,
}
use protosnirk.Prelude.States.{◌>>=◌, ◌>>◌, pure, total, panic, expect}
use protosnirk.Prelude.Returns.{Returns, returns, Returns-after}
use protosnirk.Ast.Stmt.{Conditionals, ElseBlock, no_conditionals, conditional, no_else, else_block}
use protosnirk.Llvm.Sys.{Ref, LlvmSys, int_eq}
use protosnirk.Llvm.Values.{has_nul, c_string}
use protosnirk.Compile.State.{ModuleCompiler, Compiles, on_context, on_llvm, on_builder, pop}
use protosnirk.Compile.Exprs.{parent_function, visit_expression}
use protosnirk.Compile.Blocks.{
  block_at, create_else, branch_on_condition, branch_value, branch_to_end, go_to, go_to_next,
  numbered,
}
use protosnirk.Llvm.Builder.{build_icmp, build_br, build_cond_br}
use protosnirk.Compile.Blocks.Layout.{
  count, blocks_for, block_at-lt, append_block-returns, create_blocks-length,
}
use protosnirk.Compile.Stmts.{prepare_if, visit_conditionals, visit_block}

blocks_for-suc : (cs : Conditionals) (ix : ℕ) → blocks_for cs (suc ix) ≡ 2 * count cs
blocks_for-suc no_conditionals ix = omega arith
blocks_for-suc (conditional c b sp rest) ix = ground (arith, blocks_for-suc rest (suc ix))

blocks_for-zero : (cs : Conditionals) → 2 * count cs ≤ blocks_for cs 0 + 1
blocks_for-zero no_conditionals = omega arith
blocks_for-zero (conditional c b sp rest) = ground (arith, blocks_for-suc rest 0)

-- The two blocks of each conditional, from the index `ix` on: its own, and the one behind it.
abbrev pub At : List Ref → ℕ → List (Ref × Ref) → Type 0
At bs ix [] = Unit
At bs ix ((own, behind) ∷ ps) =
    (block_at bs ix ≡ some own) × (block_at bs (ix + 1) ≡ some behind) × At bs (ix + 2) ps

At-length :
    (n ix : ℕ) (bs : List Ref)
    → ix + 2 * n ≤ length bs
    → (ps : List (Ref × Ref)) × (length ps ≡ n) × At bs ix ps
At-length zero ix bs h = ([], refl, tt)
At-length (suc n) ix bs h =
    let (own, p) = block_at-lt bs ix (omega (arith, h)) in
    let (behind, q) = block_at-lt bs (ix + 1) (omega (arith, h)) in
    let (ps, k, at) = At-length n (ix + 2) bs (omega (arith, h)) in
    let all : At bs ix ((own, behind) ∷ ps) = (p, q, at) in ((own, behind) ∷ ps, ap suc k, all)

module _ {W : Type 0} ⦃l : LlvmSys W⦄ where
  create_else-returns :
      (func : Ref) (e : ElseBlock) (s : ModuleCompiler W)
      → Returns (λ _ _. Unit {0}) (create_else func e s)
  unfolding create_else pure ◌>>=◌ c_string has_nul
  create_else-returns func no_else s = returns [] s tt
  create_else-returns func (else_block b) s =
      Returns-after (λ _ _. Unit {0}) (append_block-returns func (codes "else_block") s refl)
        λ b t _. returns (b ∷ []) t tt

  -- The branch on a condition, to the block of the conditional or to the one behind it.
  unfoldable branch_between : Ref → Ref → Ref → ℕ → Compiles W (Unit {0})
  branch_between int1_zero own behind ix = do
    cond_value ← pop
    cond_cmp ←
        on_builder
          λ b. build_icmp b int_eq cond_value int1_zero (numbered (codes "if_") ix (codes "_cmp"))
    on_builder λ b. build_cond_br b cond_cmp own behind
    go_to own

  unfoldable branch_to : Ref → Compiles W (Unit {0})
  branch_to block = do on_builder λ b. build_br b block; pure tt

  -- The loop over the conditionals with the blocks of each one in hand, so that none is taken by an
  -- index, and the end block.
  unfoldable pub over_pairs :
      Conditionals → Bool → Ref → List (Ref × Ref) → Ref → ℕ → Compiles W (List Ref)
  unfolding branch_between branch_to
  over_pairs no_conditionals valued_if int1_zero ps if_end ix = pure []
  over_pairs (conditional c b sp rest) valued_if int1_zero [] if_end ix = panic
  over_pairs (conditional c b sp rest) valued_if int1_zero ((own, behind) ∷ ps) if_end ix = do
    visit_expression c
    branch_between int1_zero own behind ix
    visit_block b
    values ← branch_value valued_if
    branch_to if_end
    go_to behind
    others ← over_pairs rest valued_if int1_zero ps if_end (ix + 2)
    pure (values ++ others)

  branch_on_condition-between :
      (z own behind : Ref) (bs : List Ref) (ix : ℕ)
      → block_at bs ix ≡ some own
      → block_at bs (ix + 1) ≡ some behind
      → branch_on_condition z bs ix ≡ branch_between z own behind ix
  unfolding branch_on_condition branch_between expect pure ◌>>=◌ ◌>>◌
  branch_on_condition-between z own behind bs ix p q = rw (p, q) refl

  branch_to_end-last :
      (bs : List Ref) (if_end : Ref)
      → block_at bs (length bs - 1) ≡ some if_end
      → branch_to_end bs ≡ branch_to if_end
  unfolding branch_to_end branch_to expect pure ◌>>=◌ ◌>>◌
  branch_to_end-last bs if_end h = rw h refl

  go_to_next-behind :
      (behind : Ref) (bs : List Ref) (ix : ℕ)
      → block_at bs (ix + 1) ≡ some behind
      → go_to_next {W = W} bs ix ≡ go_to behind
  unfolding go_to_next expect pure ◌>>=◌
  go_to_next-behind behind bs ix q = rw q refl

  visit_conditionals-pairs :
      (cs : Conditionals) (valued_if : Bool) (z if_end : Ref) (bs : List Ref) (ix : ℕ)
      (ps : List (Ref × Ref))
      → length ps ≡ count cs
      → At bs ix ps
      → block_at bs (length bs - 1) ≡ some if_end
      → visit_conditionals cs valued_if z bs ix ≡ over_pairs cs valued_if z ps if_end ix
  unfolding visit_conditionals over_pairs
  visit_conditionals-pairs no_conditionals valued_if z if_end bs ix ps n at last = refl
  visit_conditionals-pairs (conditional c b sp rest) valued_if z if_end bs ix [] n at last =
      absurd (omega (arith, n))
  visit_conditionals-pairs (conditional c b sp rest) valued_if z if_end bs ix ((own, behind) ∷ ps) n
        (p, q, at) last =
      rw
        (
          branch_on_condition-between z own behind bs ix p q,
          branch_to_end-last bs if_end last,
          go_to_next-behind behind bs ix q,
          visit_conditionals-pairs rest valued_if z if_end bs (ix + 2) ps (omega (arith, n)) at
              last,
        )
        refl

-- That the loop over `cs` on the prepared blocks is the one that has the blocks of each conditional in
-- hand: the `k`-th conditional has the blocks `2 k` and `2 k + 1`, and the last block is the end.
abbrev pub Paired : (W : Type 0) ⦃l : LlvmSys W⦄ → Conditionals → Bool → List Ref × Ref → Type 0
Paired W cs valued_if (bs, z) =
    (ps : List (Ref × Ref)) × (if_end : Ref) × (length ps ≡ count cs)
    × At bs 0 ps
    × (block_at bs (length bs - 1) ≡ some if_end)
    × (visit_conditionals {W = W} cs valued_if z bs 0 ≡ over_pairs cs valued_if z ps if_end 0)

module _ {W : Type 0} ⦃l : LlvmSys W⦄ where
  Paired-length :
      (cs : Conditionals) (valued_if : Bool) (front back : List Ref) (e z : Ref)
      → length front ≡ blocks_for cs 0
      → Paired W cs valued_if (front ++ (back ++ e ∷ []), z)
  Paired-length cs valued_if front back e z h =
      let bs = front ++ (back ++ e ∷ []) in
      let n : length bs ≡ length front + (length back + 1) =
        omega (arith, length-append front (back ++ e ∷ []), length-append back (e ∷ [])) in
      let (ps, k, at) = At-length (count cs) 0 bs (omega (arith, n, h, blocks_for-zero cs)) in
      let (if_end, last) = block_at-lt bs (length bs - 1) (omega (arith, n)) in
      let same = visit_conditionals-pairs cs valued_if z if_end bs 0 ps k at last in
      (ps, if_end, k, at, last, same)

  -- Where the builder stands in a function, `visit_if_block` prepares the basic blocks of any number of
  -- conditionals, with or without an `else`, so that its loop on indices is the loop that has the blocks
  -- of each conditional in hand, from every state: each condition branches to its own two blocks, each
  -- branch ends with a jump to the last block, and no index is out of bounds.
  pub prepare_if-Paired :
      (cs : Conditionals) (e : ElseBlock) (valued_if : Bool) (s : ModuleCompiler W) {func : Ref}
      {t : ModuleCompiler W}
      → parent_function s ≡ some (func, t)
      → Returns (λ r _. Paired W cs valued_if r) (prepare_if cs e s)
  unfolding prepare_if pure total on_context on_llvm ◌>>=◌ has_nul c_string
  prepare_if-Paired cs e valued_if s {func} {t} h = rw h (
      Returns-after (λ r _. Paired W cs valued_if r) (create_blocks-length func cs 0 t)
        λ front u k.
          Returns-after (λ r _. Paired W cs valued_if r) (create_else-returns func e u)
            λ back v _.
              let r = l.int1_type v.context v.world in
              let q = l.const_int r.0 0 false r.1 in
              Returns-after (λ r _. Paired W cs valued_if r)
                (append_block-returns func (codes "if_end") (record v { world = q.1 }) refl)
                λ last z _.
                  returns (front ++ (back ++ last ∷ []), q.0) z
                    (Paired-length cs valued_if front back last q.0 k))
