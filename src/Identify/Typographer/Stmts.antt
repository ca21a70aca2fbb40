-- ===== src/Identify/Typographer/Stmts.antt =====
-- src/identify/types/expr_typographer.rs: `ExprTypographer` on statements, blocks and functions.
use protosnirk.Prelude.{
  ℕ, Bool, true, false, Option, none, some, List, [], ◌∷◌, codes, if◌then◌else◌, ◌==◌,
}
use protosnirk.Prelude.Maps.{text_has_eq}
use protosnirk.Prelude.States.{pure, gets, modify, expect, ◌>>=◌, ◌>>◌}
use protosnirk.Ast.Index.{ScopedId, is_default, same_id}
use protosnirk.Ast.Identifier.{Identifier, TypeExpression, type_id}
use protosnirk.Ast.Expression.{Expression}
use protosnirk.Ast.Stmt.{
  Statement, Block, Statements, Conditionals, ElseBlock, expression, return_stmt, declaration,
  do_block, if_block, block, no_stmts, stmt, no_conditionals, conditional, no_else, else_block,
}
use protosnirk.Ast.Item.{BlockFnDeclaration, Item, SourceUnit, block_fn_declaration, typedef}
use protosnirk.Identify.Petgraph.{Petgraph}
use protosnirk.Identify.TypeScope.{named_type_id}
use protosnirk.Identify.TypeGraph.{
  TypeNode, InferenceSource, get_type, add_type, add_variable, fn_signature, fn_parameter,
  fn_return_type, if_conditional_bool, if_branches_same, explicit_decl, from_declaration,
  explicit_return, implicit_return,
}
use protosnirk.Identify.Typographer.State.{
  Typing, graphs, infer, set_current, current, primitive_type_ix,
}
use protosnirk.Identify.Typographer.Exprs.{visit_expression}

module _ {G : Type 0} ⦃p : Petgraph G TypeNode InferenceSource⦄ where
  abbrev pub set_unit : Typing G (Unit {0})
  set_unit = primitive_type_ix (codes "()") >>= set_current

  -- `self.graph.get_type(id).expect(…)`
  abbrev pub known_type : ScopedId → Typing G ℕ
  known_type id = gets (λ s. get_type id s.graph) >>= expect

  declared_edge : ℕ → Identifier → Option TypeExpression → Typing G (Unit {0})
  declared_edge var_ix ident none = pure tt
  declared_edge var_ix ident (some ty) = do
    ty_ix ← known_type (type_id ty)
    infer var_ix ty_ix (explicit_decl ident)

  unfoldable pub visit_declaration :
      Identifier → Option TypeExpression → Expression → Typing G (Unit {0})
  unfolding declared_edge
  visit_declaration ident decl value = do
    visit_expression value
    var_ix ← graphs (add_variable ident.id)
    declared_edge var_ix ident decl
    ty ← current
    infer var_ix ty (from_declaration ident)
    set_unit

  return_edge : ℕ → ℕ → ℕ → Typing G (Unit {0})
  return_edge ty unit_type ret = if ty == unit_type then pure tt else infer ty ret explicit_return

  unfoldable pub visit_return : Option Expression → Typing G (Unit {0})
  unfolding return_edge
  visit_return (some e) = do
    set_unit
    visit_expression e
    ty ← current
    unit_type ← primitive_type_ix (codes "()")
    ret ← gets (λ s. s.fn_ret_type)
    return_edge ty unit_type ret
  visit_return none = do
    set_unit
    unit_type ← primitive_type_ix (codes "()")
    ret ← gets (λ s. s.fn_ret_type)
    infer ret unit_type explicit_return

  -- The edge of a branch to its if block, which goes on with `f` of the two nodes.
  unfoldable pub branch_edge : Option ScopedId → (ℕ → Typing G (Unit {0})) → Typing G (Unit {0})
  branch_edge none f = pure tt
  branch_edge (some source) f = current >>= f

  if_type : Option ScopedId → ℕ → Typing G (Unit {0})
  if_type none ix = set_unit
  if_type (some source) ix = set_current ix

  -- `visit_if_block`, the visits of its parts being passed on.
  unfoldable pub visit_if :
      ScopedId
      → Option ScopedId
      → (ℕ → ℕ → Typing G (Unit {0}))
      → (ℕ → Typing G (Unit {0}))
      → Typing G (Unit {0})
  unfolding if_type
  visit_if id source conds els =
      if is_default id
      then pure tt
      else (graphs (add_variable id) >>= λ if_ix. primitive_type_ix (codes "bool") >>= λ bool_type.
          conds if_ix bool_type >> els if_ix >> if_type source if_ix)

  block_type : Option ScopedId → ScopedId → Typing G (Unit {0})
  block_type none id = set_unit
  block_type (some source) id = do
    block_ix ← graphs (add_variable id)
    ty ← current
    infer block_ix ty implicit_return
    set_current block_ix

  -- `visit_block`, the visits of its statements being passed on.
  unfoldable pub visit_body :
      Statements → ScopedId → Option ScopedId → Typing G (Unit {0}) → Typing G (Unit {0})
  unfolding block_type
  visit_body no_stmts id source walk = if is_default id then pure tt else set_unit
  visit_body (stmt s rest) id source walk =
      if is_default id then pure tt else (walk >> block_type source id)

  unfoldable mutual
    -- `visit_stmt`
    pub visit_stmt : Statement → Typing G (Unit {0})
    visit_stmt (expression e) = visit_expression e
    visit_stmt (return_stmt value sp) = visit_return value
    visit_stmt (declaration m ident decl value sp) = visit_declaration ident decl value
    visit_stmt (do_block b sp) = visit_block b
    visit_stmt (if_block cs e id source sp) =
        visit_if id source (visit_conditionals source cs) (visit_else source e)

    pub visit_conditionals : Option ScopedId → Conditionals → ℕ → ℕ → Typing G (Unit {0})
    visit_conditionals source no_conditionals if_ix bool_type = pure tt
    visit_conditionals source (conditional c b sp rest) if_ix bool_type = do
      visit_expression c
      ty ← current
      infer ty bool_type if_conditional_bool
      visit_block b
      branch_edge source (λ b_ty. infer if_ix b_ty if_branches_same)
      visit_conditionals source rest if_ix bool_type

    -- The edge of the else block goes the other way.
    pub visit_else : Option ScopedId → ElseBlock → ℕ → Typing G (Unit {0})
    visit_else source no_else if_ix = pure tt
    visit_else source (else_block b) if_ix = do
      visit_block b
      branch_edge source (λ b_ty. infer b_ty if_ix if_branches_same)

    pub visit_block : Block → Typing G (Unit {0})
    visit_block (block ss id source sp) = visit_body ss id source (walk_block ss)

    pub walk_block : Statements → Typing G (Unit {0})
    walk_block no_stmts = pure tt
    walk_block (stmt s rest) = do visit_stmt s; walk_block rest

  -- The loop over the parameters.
  unfoldable pub visit_params : List (Identifier × TypeExpression) → Typing G (Unit {0})
  visit_params [] = pure tt
  visit_params ((param, ty) ∷ rest) = do
    param_ix ← graphs (add_variable param.id)
    ty_ix ← graphs (add_type (type_id ty))
    infer param_ix ty_ix (fn_parameter param)
    visit_params rest

  -- The end of `visit_block_fn_decl`, on whether the function returns nothing.
  return_type_edge : Bool → Identifier → ℕ → Typing G (Unit {0})
  return_type_edge true f ret = pure tt
  return_type_edge false f ret = do ty ← current; infer ty ret (fn_return_type f)

  typed_fn : BlockFnDeclaration → Typing G (Unit {0})
  unfolding return_type_edge
  typed_fn f = do
    found ← gets (λ s. named_type_id (codes "()") s.builder)
    unit_id ← expect found
    ret ← known_type (type_id f.ret_ty)
    modify (λ s. record s { fn_ret_type = ret })
    fn_ix ← graphs (add_variable f.ident.id)
    fn_ty_ix ← graphs (add_type f.ident.id)
    infer fn_ix fn_ty_ix (fn_signature f.ident)
    visit_params f.params
    visit_block f.block
    return_type_edge (same_id (type_id f.ret_ty) unit_id) f.ident ret

  unfoldable pub visit_block_fn_decl : BlockFnDeclaration → Typing G (Unit {0})
  unfolding typed_fn
  visit_block_fn_decl f =
      if is_default f.ident.id
      then pure tt
      else (if is_default (type_id f.ret_ty) then pure tt else typed_fn f)

  -- `visit_item`: type definitions are skipped.
  unfoldable pub visit_item : Item → Typing G (Unit {0})
  visit_item (block_fn_declaration f) = visit_block_fn_decl f
  visit_item (typedef t) = pure tt

  -- `walk_unit`
  unfoldable pub walk_unit : List Item → Typing G (Unit {0})
  walk_unit [] = pure tt
  walk_unit (i ∷ rest) = do visit_item i; walk_unit rest

  abbrev pub visit_unit : SourceUnit → Typing G (Unit {0})
  visit_unit u = walk_unit u.items
