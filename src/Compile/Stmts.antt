-- ===== src/Compile/Stmts.antt =====
-- src/compile/module_compiler.rs: `ModuleCompiler` on statements and blocks.
pub mod Bounds
pub mod Meaning
pub mod Bound
pub mod Straight
use protosnirk.Prelude.{ℕ, ◌+◌, Bool, true, false, Option, none, some, List, [], ◌∷◌, ◌++◌, codes}
use protosnirk.Prelude.States.{pure, gets, ◌>>=◌, ◌>>◌}
use protosnirk.Ast.Identifier
use protosnirk.Ast.Identifier.{Identifier}
use protosnirk.Ast.Index.{ScopedId}
use protosnirk.Ast.Expression.{Expression}
use protosnirk.Ast.Stmt.{
  Statement, Block, Statements, Conditionals, ElseBlock, expression, return_stmt, declaration,
  do_block, if_block, block, no_stmts, stmt, no_conditionals, conditional, no_else, else_block,
}
use protosnirk.Llvm.Sys.{Ref, LlvmSys}
use protosnirk.Llvm.Values.{int1, void, const_int}
use protosnirk.Llvm.Builder.{build_alloca, build_store, build_ret, build_ret_void}
use protosnirk.Compile.State.{
  Compiles, on_context, on_builder, on_llvm, set_current, pop, remember, llvm_type_of,
}
use protosnirk.Compile.Exprs.{visit_expression, append_block, parent_function}
use protosnirk.Compile.Blocks.{
  create_blocks, create_else, branch_on_condition, branch_value, branch_to_end, go_to_next,
  finish_if,
}

abbrev pub has_source : Option ScopedId → Bool
has_source none = false
has_source (some id) = true

module _ {W : Type 0} ⦃l : LlvmSys W⦄ where
  -- `visit_declaration`, behind the visit of the value.
  unfoldable pub declare : Identifier → Compiles W (Unit {0})
  declare ident = do
    decl_value ← pop
    ty ← gets (λ s. s.current_type)
    alloca ← on_builder λ b. build_alloca b ty (Identifier.name ident)
    on_builder λ b. build_store b decl_value alloca
    remember ident.id alloca

  return_value : Option Expression → Compiles W (Unit {0})
  return_value none = do on_builder build_ret_void; pure tt
  return_value (some e) = do
    visit_expression e
    return_val ← pop
    on_builder λ b. build_ret b return_val
    pure tt

  unfoldable pub visit_return : Option Expression → Compiles W (Unit {0})
  unfolding return_value
  visit_return value = do return_value value; ty ← on_context void; set_current ty

  -- The end of `visit_block`.
  unfoldable pub block_type : ScopedId → Option ScopedId → Compiles W (Unit {0})
  block_type id none = pure tt
  block_type id (some source) = do ty ← llvm_type_of id; set_current ty

  -- The start of `visit_if_block`: the function, the blocks and the zero of `bool`.
  unfoldable pub prepare_if : Conditionals → ElseBlock → Compiles W (List Ref × Ref)
  prepare_if cs e = do
    func ← parent_function
    conditions ← create_blocks func cs 0
    otherwise ← create_else func e
    int1_type ← on_context int1
    int1_zero ← on_llvm (const_int int1_type 0 false)
    if_end ← append_block func (codes "if_end")
    pure (conditions ++ (otherwise ++ if_end ∷ []), int1_zero)

  unfoldable mutual
    -- `visit_stmt`, with the visitor of each kind of statement.
    pub visit_stmt : Statement → Compiles W (Unit {0})
    visit_stmt (expression e) = visit_expression e
    visit_stmt (return_stmt value sp) = visit_return value
    visit_stmt (declaration m ident ty value sp) = do visit_expression value; declare ident
    visit_stmt (do_block b sp) = visit_block b
    visit_stmt (if_block cs e id source sp) = do
      start ← prepare_if cs e
      values ← visit_conditionals cs (has_source source) start.1 start.0 0
      last ← visit_else e (has_source source) start.0
      finish_if (has_source source) id (values ++ last) start.0

    -- The loop over the conditionals, whose blocks start at `ix`; it gives the incoming values.
    pub visit_conditionals : Conditionals → Bool → Ref → List Ref → ℕ → Compiles W (List Ref)
    visit_conditionals no_conditionals valued_if int1_zero blocks ix = pure []
    visit_conditionals (conditional c b sp rest) valued_if int1_zero blocks ix = do
      visit_expression c
      branch_on_condition int1_zero blocks ix
      visit_block b
      values ← branch_value valued_if
      branch_to_end blocks
      go_to_next blocks ix
      others ← visit_conditionals rest valued_if int1_zero blocks (ix + 2)
      pure (values ++ others)

    pub visit_else : ElseBlock → Bool → List Ref → Compiles W (List Ref)
    visit_else no_else valued_if blocks = pure []
    visit_else (else_block b) valued_if blocks = do
      visit_block b
      values ← branch_value valued_if
      branch_to_end blocks
      pure values

    pub visit_block : Block → Compiles W (Unit {0})
    visit_block (block ss id source sp) = do walk_block ss; block_type id source

    pub walk_block : Statements → Compiles W (Unit {0})
    walk_block no_stmts = pure tt
    walk_block (stmt s rest) = do visit_stmt s; walk_block rest
