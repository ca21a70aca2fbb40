-- ===== src/Compile/State.antt =====
-- src/compile/module_compiler.rs: the state of `ModuleCompiler`, with what LLVM keeps, and the types
-- of LLVM for those of the program.
pub mod Known
use protosnirk.Prelude.{
  Bool, false, Option, none, some, List, [], ◌∷◌, Text, codes, text_eq, if◌then◌else◌,
}
use protosnirk.Prelude.Maps.{Map, lookup, insert}
use protosnirk.Prelude.States.{Action, pure, panic, expect, gets, modify, ◌>>=◌}
use protosnirk.Ast.Index.{ScopedId, scoped_id_has_eq}
use protosnirk.Check.Concretifier.{TypeMapping}
use protosnirk.Identify.ConcreteType.{
  ConcreteType, FnParams, named_type, fn_type, no_params, fn_param,
}
use protosnirk.Llvm.Sys.{Ref, LlvmSys}
use protosnirk.Llvm.Values.{int1, double, void, function}
use protosnirk.Compile.ModuleProvider.{SimpleModuleProvider}

-- `ModuleCompiler`; the last value of `ir_code` first, and `world` is what LLVM keeps.
pub record ModuleCompiler (W : Type 0) : Type 0 where
  pub world : W
  pub module_provider : SimpleModuleProvider
  pub optimizations : Bool
  pub context : Ref
  pub builder : Ref
  pub ir_code : List Ref
  pub current_type : Ref
  pub types : TypeMapping
  pub scope_manager : Map ScopedId Ref

abbrev pub Compiles {ℓ} : Type 0 → Type ℓ → Type ℓ
Compiles W A = Action (ModuleCompiler W) A

module _ {W : Type 0} where
  -- What a call of LLVM leaves.
  unfoldable pub on_world {ℓ} :
      {A : Type ℓ} → ModuleCompiler W → Option (A × W) → Option (A × ModuleCompiler W)
  on_world s none = none
  on_world s (some (a, w)) = some (a, record s { world = w })

  -- A call of a wrapper with the context, with the builder, and with the module.
  unfoldable pub on_context {ℓ} : {A : Type ℓ} → (Ref → Action W A) → Compiles W A
  unfolding on_world
  on_context m s = on_world s (m s.context s.world)

  unfoldable pub on_builder {ℓ} : {A : Type ℓ} → (Ref → Action W A) → Compiles W A
  unfolding on_world
  on_builder m s = on_world s (m s.builder s.world)

  -- `self.current_module()`
  unfoldable pub on_module {ℓ} : {A : Type ℓ} → (Ref → Action W A) → Compiles W A
  unfolding on_world
  on_module m s = on_world s (m s.module_provider.llvm_module s.world)

  unfoldable pub on_llvm {ℓ} : {A : Type ℓ} → Action W A → Compiles W A
  unfolding on_world
  on_llvm m s = on_world s (m s.world)

  abbrev pub set_current : Ref → Compiles W (Unit {0})
  set_current ty = modify λ s. record s { current_type = ty }

  -- `self.ir_code.push(value)`
  abbrev pub push : Ref → Compiles W (Unit {0})
  push value = modify λ s. record s { ir_code = value ∷ s.ir_code }

  popped : List Ref → ModuleCompiler W → Option (Ref × ModuleCompiler W)
  popped [] s = none
  popped (v ∷ vs) s = some (v, record s { ir_code = vs })

  -- `self.ir_code.pop().expect(…)`
  unfoldable pub pop : Compiles W Ref
  unfolding popped
  pop s = popped s.ir_code s

  -- `self.scope_manager.get(id).expect(…)`
  unfoldable pub scoped : ScopedId → Compiles W Ref
  scoped id = do found ← gets (λ s. lookup id s.scope_manager); expect found

  -- `self.scope_manager.insert(id, value)`
  abbrev pub remember : ScopedId → Ref → Compiles W (Unit {0})
  remember id value = modify λ s. record s { scope_manager = insert id value s.scope_manager }

module _ {W : Type 0} ⦃l : LlvmSys W⦄ where
  -- The type of a name.
  unfoldable pub llvm_named : Text → Ref → Action W Ref
  llvm_named name context =
      if text_eq name (codes "()")
      then void context
      else if text_eq name (codes "bool")
      then int1 context
      else if text_eq name (codes "float")
      then double context
      else panic

  unfoldable mutual
    unfolding llvm_named

    -- `llvm_type_of_concrete`
    pub llvm_type_of_concrete : ConcreteType → Ref → Action W Ref
    llvm_type_of_concrete (named_type name) context = llvm_named name context
    llvm_type_of_concrete (fn_type params ret) context = do
      ps ← llvm_types params context
      r ← llvm_type_of_concrete ret context
      function r ps false

    pub llvm_types : FnParams → Ref → Action W (List Ref)
    llvm_types no_params context = pure []
    llvm_types (fn_param name ty rest) context = do
      p ← llvm_type_of_concrete ty context
      ps ← llvm_types rest context
      pure (p ∷ ps)

  -- `llvm_type_of`
  unfoldable pub llvm_type_of : ScopedId → Compiles W Ref
  llvm_type_of id = do
    found ← gets (λ s. lookup id s.types)
    concrete ← expect found
    on_context (llvm_type_of_concrete concrete)
