-- ===== src/Compile/Blocks/Layout.antt =====
-- The basic blocks of an `if` block, and the edges of its phi node.
use protosnirk.Prelude.{
  ℕ, zero, suc, ◌+◌, ◌<◌, ◌≡◌, refl, ap, ◌∙◌, some, List, [], ◌∷◌, ◌++◌, length, length-append,
  append_assoc, Bool-cases, inl, inr, sym, Text, codes, ◌==◌, if◌then◌else◌, arith,
}
use protosnirk.Prelude.States.{◌>>=◌, expect, pure, total}
use protosnirk.Prelude.Returns.{Returns, returns, Returns-after}
use protosnirk.Ast.Stmt.{Conditionals, no_conditionals, conditional}
use protosnirk.Llvm.Sys.{Ref, LlvmSys}
use protosnirk.Llvm.Values.{c_string, has_nul, append_basic_block}
use protosnirk.Compile.State.{ModuleCompiler, on_context}
use protosnirk.Compile.Exprs.{append_block}
use protosnirk.Compile.Blocks.{
  block_at, pop_block, chunk_heads, incoming_conditions, edges_of, create_blocks, cond_block,
  numbered,
}
use protosnirk.Compile.Blocks.Names.{numbered_clean}

pub block_at-lt : (bs : List Ref) (i : ℕ) → i < length bs → (b : Ref) × (block_at bs i ≡ some b)
unfolding block_at
block_at-lt [] i h = absurd (omega arith)
block_at-lt (b ∷ bs) zero h = (b, refl)
block_at-lt (b ∷ bs) (suc i) h = block_at-lt bs i (omega arith)

-- The block of each conditional, with the one that stands behind it.
abbrev pub flatten : List (Ref × Ref) → List Ref
flatten [] = []
flatten ((t, e) ∷ ps) = t ∷ e ∷ flatten ps

abbrev pub then_blocks : List (Ref × Ref) → List Ref
then_blocks [] = []
then_blocks ((t, e) ∷ ps) = t ∷ then_blocks ps

pop_block-last : (bs : List Ref) (e : Ref) → pop_block (bs ++ e ∷ []) ≡ some (bs, e)
unfolding pop_block
pop_block-last [] e = refl
pop_block-last (b ∷ []) e = refl
pop_block-last (b ∷ c ∷ bs) e = rw (pop_block-last (c ∷ bs) e)

chunk_heads-flatten :
    (ps : List (Ref × Ref)) (bs : List Ref)
    → chunk_heads (flatten ps ++ bs) ≡ then_blocks ps ++ chunk_heads bs
unfolding chunk_heads
chunk_heads-flatten [] bs = refl
chunk_heads-flatten ((t, e) ∷ ps) bs = ap (λ cs. t ∷ cs) (chunk_heads-flatten ps bs)

-- With an `else` the phi node has an edge from the block of each conditional, in order, and one from
-- the `else`. Without one, the last conditional's block has two edges.
pub incoming_conditions_lem :
    (ps : List (Ref × Ref)) (t e : Ref)
    → (incoming_conditions (flatten ps ++ t ∷ e ∷ []) ≡ some (then_blocks ps ++ t ∷ e ∷ []))
      × (incoming_conditions (flatten ps ++ t ∷ []) ≡ some (then_blocks ps ++ t ∷ t ∷ []))
unfolding incoming_conditions chunk_heads
incoming_conditions_lem ps t e = (
  rw
      (
        ap (λ o. edges_of (flatten ps ++ t ∷ e ∷ []) o)
            (ap pop_block (sym (append_assoc (flatten ps) (t ∷ []) (e ∷ [])))
              ∙ pop_block-last (flatten ps ++ t ∷ []) e),
        chunk_heads-flatten ps (t ∷ e ∷ []),
      )
      (ap some (append_assoc (then_blocks ps) (t ∷ []) (e ∷ []))),
  rw (pop_block-last (flatten ps) t, chunk_heads-flatten ps (t ∷ []))
      (ap some (append_assoc (then_blocks ps) (t ∷ []) (t ∷ []))),
)

abbrev pub count : Conditionals → ℕ
count no_conditionals = 0
count (conditional c b sp rest) = suc (count rest)

-- The blocks of some conditionals: the first one of an `if` has no block for its condition.
abbrev pub blocks_for : Conditionals → ℕ → ℕ
blocks_for no_conditionals ix = 0
blocks_for (conditional c b sp rest) ix = (if ix == 0 then 1 else 2) + blocks_for rest (ix + 1)

module _ {W : Type 0} ⦃l : LlvmSys W⦄ where
  pub append_block-returns :
      (func : Ref) (name : Text) (s : ModuleCompiler W)
      → c_string name ≡ some name
      → Returns (λ _ _. Unit {0}) (append_block func name s)
  unfolding append_basic_block on_context ◌>>=◌ expect pure total
  append_block-returns func name s h = rw h (returns _ _ tt)

  cond_block-length :
      (func : Ref) (ix : ℕ) (s : ModuleCompiler W)
      → Returns (λ bs t. length bs + 1 ≡ (if ix == 0 then 1 else 2)) (cond_block func ix s)
  unfolding cond_block pure ◌>>=◌ has_nul
  cond_block-length func ix s = elim (Bool-cases (ix == 0)) [
    | inl e ↦ rw e (returns [] s refl)
    | inr e ↦ rw e (
        Returns-after (λ bs t. length bs + 1 ≡ 2)
          (append_block-returns func (numbered (codes "if_") (ix + 1) (codes "_cond")) s
            (numbered_clean (codes "if_") (codes "_cond") (ix + 1) refl refl))
          λ b t _. returns (b ∷ []) t refl)
  ]

  pub create_blocks-length :
      (func : Ref) (cs : Conditionals) (ix : ℕ) (s : ModuleCompiler W)
      → Returns (λ bs t. length bs ≡ blocks_for cs ix) (create_blocks func cs ix s)
  unfolding create_blocks pure ◌>>=◌ has_nul
  create_blocks-length func no_conditionals ix s = returns [] s refl
  create_blocks-length func (conditional c b sp rest) ix s =
      Returns-after (λ bs t. length bs ≡ blocks_for (conditional c b sp rest) ix)
        (cond_block-length func ix s)
        λ cond t h.
          Returns-after (λ bs u. length bs ≡ blocks_for (conditional c b sp rest) ix)
            (append_block-returns func (numbered (codes "if_") (ix + 1) (codes "_then")) t
              (numbered_clean (codes "if_") (codes "_then") (ix + 1) refl refl))
            λ then_block u _.
              Returns-after (λ bs v. length bs ≡ blocks_for (conditional c b sp rest) ix)
                (create_blocks-length func rest (ix + 1) u)
                λ others v k.
                  returns (cond ++ then_block ∷ others) v
                    (length-append cond (then_block ∷ others) ∙ omega (arith, h, k))
