-- ===== src/Compile/Items.antt =====
-- src/compile/module_compiler.rs: `ModuleCompiler` on items and units.
pub mod Returns
use protosnirk.Prelude.{Bool, true, false, Option, none, some, List, [], ◌∷◌, codes, if◌then◌else◌}
use protosnirk.Prelude.States.{Action, after, total, pure, panic, expect, gets, ◌>>=◌, ◌>>◌}
use protosnirk.Ast.Identifier
use protosnirk.Ast.Identifier.{Identifier, TypeExpression}
use protosnirk.Ast.Item.{BlockFnDeclaration, Item, SourceUnit, block_fn_declaration, typedef}
use protosnirk.Ast.Index.{ScopedId}
use protosnirk.Prelude.Maps.{Map}
use protosnirk.Check.Concretifier.{TypeMapping}
use protosnirk.Llvm.Sys.{Ref, TypeKind, LlvmSys, void_kind}
use protosnirk.Llvm.Values.{
  void, return_type, get_kind, add_function, get_params, set_name, verify, verify_module, dump, run,
}
use protosnirk.Llvm.Builder.{build_alloca, build_store, build_br, build_ret, build_ret_void}
use protosnirk.Compile.ModuleProvider.{SimpleModuleProvider}
use protosnirk.Compile.State.{
  ModuleCompiler, Compiles, on_builder, on_module, on_llvm, remember, llvm_type_of,
}
use protosnirk.Compile.Exprs.{append_block}
use protosnirk.Compile.Blocks.{go_to}
use protosnirk.Compile.Stmts.{visit_block}

abbrev pub is_void : TypeKind → Bool
is_void void_kind = true
is_void _ = false

module _ {W : Type 0} ⦃l : LlvmSys W⦄ where
  -- The loop over the parameters of the declaration, along those of LLVM.
  unfoldable pub store_params :
      List (Identifier × TypeExpression) → List Ref → Compiles W (Unit {0})
  store_params ((ast_param, ty) ∷ ps) (ir_param ∷ irs) = do
    on_llvm (set_name ir_param (Identifier.name ast_param))
    param_type ← llvm_type_of ast_param.id
    alloca ← on_builder λ b. build_alloca b param_type (Identifier.name ast_param)
    on_builder λ b. build_store b ir_param alloca
    remember ast_param.id alloca
    store_params ps irs
  store_params _ _ = pure tt

  take_remaining : List Ref → ModuleCompiler W → Option Ref × ModuleCompiler W
  take_remaining [] s = (none, s)
  take_remaining (v ∷ vs) s = (some v, record s { ir_code = vs })

  -- `self.ir_code.pop()`
  unfoldable pub pop_remaining : Compiles W (Option Ref)
  unfolding take_remaining
  pop_remaining = total λ s. take_remaining s.ir_code s

  return_remaining : Option Ref → Compiles W (Unit {0})
  return_remaining none = pure tt
  return_remaining (some v) = do on_builder λ b. build_ret b v; pure tt

  -- The return at the end of a function: of what remains on `ir_code`, unless it returns nothing.
  unfoldable pub append_return : Bool → Compiles W (Unit {0})
  unfolding return_remaining
  append_return true = do on_builder build_ret_void; pure tt
  append_return false = do remaining ← pop_remaining; return_remaining remaining

  unfoldable pub optimize : Ref → Compiles W (Unit {0})
  optimize fn_ref = do
    optimizations ← gets (λ s. s.optimizations)
    manager ← gets (λ s. s.module_provider.fn_pass_manager)
    if optimizations then (do on_llvm (run manager fn_ref); pure tt) else pure tt

  -- Whether the function of this type returns nothing.
  unfoldable pub returns_void : Ref → Compiles W Bool
  returns_void fn_ty = do
    ret ← on_llvm (return_type fn_ty)
    ret_type ← expect ret
    kind ← on_llvm (get_kind ret_type)
    pure (is_void kind)

  unfoldable pub visit_block_fn_decl : BlockFnDeclaration → Compiles W (Unit {0})
  visit_block_fn_decl f = do
    fn_ty ← llvm_type_of f.ident.id
    fn_returns_void ← returns_void fn_ty
    fn_ref ← on_module λ m. add_function m (Identifier.name f.ident) fn_ty
    remember f.ident.id fn_ref
    entry_block ← append_block fn_ref (codes "entry")
    start_block ← append_block fn_ref (codes "start")
    go_to entry_block
    on_llvm (get_params fn_ref)
    fn_params ← on_llvm (get_params fn_ref)
    store_params f.params fn_params
    on_builder λ b. build_br b start_block
    go_to start_block
    visit_block f.block
    append_return fn_returns_void
    sound ← on_llvm (verify fn_ref)
    if sound then optimize fn_ref else panic

  -- `visit_item`; a type definition is not compiled.
  unfoldable pub visit_item : Item → Compiles W (Unit {0})
  visit_item (block_fn_declaration f) = visit_block_fn_decl f
  visit_item (typedef t) = pure tt

  -- `walk_unit`
  unfoldable pub walk_unit : List Item → Compiles W (Unit {0})
  walk_unit [] = pure tt
  walk_unit (i ∷ rest) = do visit_item i; walk_unit rest

  unfoldable pub visit_unit : SourceUnit → Compiles W (Unit {0})
  visit_unit u = do
    walk_unit u.items
    sound ← on_module verify_module
    if sound then pure tt else on_module dump

  -- `ModuleCompiler::new`
  unfoldable pub new_compiler :
      TypeMapping
      → SimpleModuleProvider
      → Ref
      → Ref
      → List Ref
      → Map ScopedId Ref
      → Bool
      → Action W (ModuleCompiler W)
  new_compiler types provider context builder ir_code scope_manager optimizations w =
      after (void context w) λ ty w'. some (
        record {
          world = w';
          module_provider = provider;
          optimizations = optimizations;
          context = context;
          builder = builder;
          ir_code = ir_code;
          current_type = ty;
          types = types;
          scope_manager = scope_manager;
        },
        w',
      )
