-- ===== src/Compile/Blocks.antt =====
-- src/compile/module_compiler.rs: the basic blocks of `visit_if_block`.
pub mod Names
pub mod Layout
pub mod Branches
use Prim.Native.Nat.{◌/◌}
use protosnirk.Prelude.{
  ℕ, zero, suc, ◌+◌, ◌-◌, ◌%◌, Bool, Option, none, some, List, [], ◌∷◌, ◌++◌, Text, codes, ltb,
  ◌==◌, length, if◌then◌else◌,
}
use protosnirk.Prelude.States.{pure, expect, ◌>>=◌, ◌>>◌}
use protosnirk.Ast.Index.{ScopedId}
use protosnirk.Ast.Stmt.{Conditionals, ElseBlock, no_conditionals, conditional, no_else, else_block}
use protosnirk.Llvm.Sys.{Ref, LlvmSys, int_eq}
use protosnirk.Llvm.Values.{add_incoming}
use protosnirk.Llvm.Builder.{position_at_end, build_br, build_cond_br, build_icmp, build_phi}
use protosnirk.Compile.State.{Compiles, on_builder, on_llvm, set_current, push, pop, llvm_type_of}
use protosnirk.Compile.Exprs.{append_block}

digits_on : ℕ → ℕ → Text
digits_on zero n = []
digits_on (suc fuel) n =
    let front = digits_on fuel (n / 10) in
    if ltb n 10 then (b'0' + n) ∷ [] else front ++ (b'0' + n % 10) ∷ []

-- `format!("{}", n)`
unfoldable pub decimal : ℕ → Text
unfolding digits_on
decimal n = digits_on (suc n) n

unfoldable pub numbered : Text → ℕ → Text → Text
unfolding decimal
numbered front n rest = (front ++ decimal n) ++ rest

-- `blocks[ix]`
unfoldable pub block_at : List Ref → ℕ → Option Ref
block_at [] ix = none
block_at (b ∷ bs) zero = some b
block_at (b ∷ bs) (suc ix) = block_at bs ix

-- `blocks.pop()`, with what is left.
unfoldable pub pop_block : List Ref → Option (List Ref × Ref)
pop_block [] = none
pop_block (b ∷ []) = some ([], b)
pop_block (b ∷ c ∷ bs) = elim (pop_block (c ∷ bs)) [
  | none ↦ none
  | some (front, last) ↦ some (b ∷ front, last)
]

-- `blocks.chunks(2).map(|c| c[0].clone())`
unfoldable pub chunk_heads : List Ref → List Ref
chunk_heads [] = []
chunk_heads (b ∷ []) = b ∷ []
chunk_heads (b ∷ c ∷ bs) = b ∷ chunk_heads bs

edges_of : List Ref → Option (List Ref × Ref) → Option (List Ref)
unfolding chunk_heads
edges_of blocks none = none
edges_of blocks (some (front, last)) = some (chunk_heads blocks ++ last ∷ [])

-- The blocks of the edges of the phi node, from those of the conditionals and the `else`.
unfoldable pub incoming_conditions : List Ref → Option (List Ref)
unfolding edges_of pop_block
incoming_conditions blocks = edges_of blocks (pop_block blocks)

module _ {W : Type 0} ⦃l : LlvmSys W⦄ where
  cond_block : Ref → ℕ → Compiles W (List Ref)
  cond_block func ix = if ix == 0 then pure [] else (do
    b ← append_block func (numbered (codes "if_") (ix + 1) (codes "_cond"))
    pure (b ∷ []))

  -- The loop that creates the blocks of the conditionals, from the `ix`-th on.
  unfoldable pub create_blocks : Ref → Conditionals → ℕ → Compiles W (List Ref)
  unfolding cond_block
  create_blocks func no_conditionals ix = pure []
  create_blocks func (conditional c b sp rest) ix = do
    cond ← cond_block func ix
    then_block ← append_block func (numbered (codes "if_") (ix + 1) (codes "_then"))
    others ← create_blocks func rest (ix + 1)
    pure (cond ++ then_block ∷ others)

  unfoldable pub create_else : Ref → ElseBlock → Compiles W (List Ref)
  create_else func no_else = pure []
  create_else func (else_block b) = do
    block ← append_block func (codes "else_block")
    pure (block ∷ [])

  abbrev pub go_to : Ref → Compiles W (Unit {0})
  go_to block = on_builder λ b. position_at_end b block

  -- The branch on the value of a condition, which is compared with the zero of `bool`.
  unfoldable pub branch_on_condition : Ref → List Ref → ℕ → Compiles W (Unit {0})
  branch_on_condition int1_zero blocks ix = do
    cond_value ← pop
    cond_cmp ←
        on_builder
          λ b. build_icmp b int_eq cond_value int1_zero (numbered (codes "if_") ix (codes "_cmp"))
    true_block ← expect (block_at blocks ix)
    false_block ← expect (block_at blocks (ix + 1))
    on_builder λ b. build_cond_br b cond_cmp true_block false_block
    go_to true_block

  -- The value of a branch, if the `if` has one.
  unfoldable pub branch_value : Bool → Compiles W (List Ref)
  branch_value valued_if = if valued_if then (do v ← pop; pure (v ∷ [])) else pure []

  unfoldable pub branch_to_end : List Ref → Compiles W (Unit {0})
  branch_to_end blocks = do
    last ← expect (block_at blocks (length blocks - 1))
    on_builder λ b. build_br b last
    pure tt

  unfoldable pub go_to_next : List Ref → ℕ → Compiles W (Unit {0})
  go_to_next blocks ix = do next ← expect (block_at blocks (ix + 1)); go_to next

  -- The phi node of an `if` with a value.
  unfoldable pub build_if_phi : ScopedId → List Ref → List Ref → Compiles W (Unit {0})
  build_if_phi id incoming_values blocks = do
    incoming ← expect (incoming_conditions blocks)
    phi_type ← llvm_type_of id
    phi ← on_builder λ b. build_phi b phi_type (codes "if_phi")
    on_llvm (add_incoming phi incoming_values incoming)
    push phi
    set_current phi_type

  -- The end of `visit_if_block`, from where the end block is taken off the blocks.
  unfoldable pub finish_if : Bool → ScopedId → List Ref → List Ref → Compiles W (Unit {0})
  finish_if valued_if id incoming_values blocks = do
    popped ← expect (pop_block blocks)
    go_to (popped.1)
    if valued_if then build_if_phi id incoming_values popped.0 else pure tt
