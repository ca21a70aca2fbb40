-- ===== src/Llvm/Values.antt =====
-- src/llvm: context.rs, module.rs, types.rs, value.rs, basic_block.rs, pass_manager.rs. A name is
-- copied into a C string, which panics where it holds a NUL.
use protosnirk.Prelude.{
  ℕ, Bool, true, false, ◌||◌, Option, none, some, List, [], ◌∷◌, Text, ◌==◌, if◌then◌else◌,
}
use protosnirk.Prelude.States.{Action, expect, pure, ◌>>=◌}
use protosnirk.Ast.Expression.{Decimal}
use protosnirk.Llvm.Sys.{Ref, TypeKind, LlvmSys, call}

-- `CString::new(name)`
unfoldable pub has_nul : Text → Bool
has_nul [] = false
has_nul (c ∷ cs) = (c == 0) || has_nul cs

unfoldable pub c_string : Text → Option Text
unfolding has_nul
c_string t = if has_nul t then none else some t

-- A pointer that may be null.
unfoldable pub non_null : Ref → Option Ref
non_null p = if p == 0 then none else some p

module _ {W : Type 0} ⦃l : LlvmSys W⦄ where
  -- `Context`
  unfoldable pub append_basic_block : Ref → Ref → Text → Action W Ref
  append_basic_block context func name = do
    c_name ← expect (c_string name)
    call (l.append_basic_block context func c_name)

  unfoldable pub new_module : Ref → Text → Action W Ref
  new_module context name = do
    c_name ← expect (c_string name)
    call (l.create_module c_name context)

  -- `Module`
  unfoldable pub add_function : Ref → Text → Ref → Action W Ref
  add_function mo name ty = do c_name ← expect (c_string name); call (l.add_function mo c_name ty)

  -- `verify`, without the message: whether it is `Ok`.
  unfoldable pub verify_module : Ref → Action W Bool
  verify_module mo = do broken ← call (l.verify_module mo); pure (if broken then false else true)

  abbrev pub dump : Ref → Action W (Unit {0})
  dump mo = call (l.dump_module mo)

  abbrev pub set_data_layout : Ref → Ref → Action W (Unit {0})
  set_data_layout mo target_data = call (l.set_module_data_layout mo target_data)

  unfoldable pub set_target_triple : Ref → Text → Action W (Unit {0})
  set_target_triple mo triple = do c_name ← expect (c_string triple); call (l.set_target mo c_name)

  -- `Type`
  abbrev pub int1 : Ref → Action W Ref
  int1 context = call (l.int1_type context)

  abbrev pub double : Ref → Action W Ref
  double context = call (l.double_type context)

  abbrev pub void : Ref → Action W Ref
  void context = call (l.void_type context)

  -- `Type::function`, which no caller asks for a variable number of arguments.
  abbrev pub function : Ref → List Ref → Bool → Action W Ref
  function ret params is_vararg = call (l.function_type ret params is_vararg)

  abbrev pub get_kind : Ref → Action W TypeKind
  get_kind ty = call (l.get_type_kind ty)

  unfoldable pub return_type : Ref → Action W (Option Ref)
  return_type ty = do ret ← call (l.get_return_type ty); pure (non_null ret)

  abbrev pub const_int : Ref → ℕ → Bool → Action W Ref
  const_int ty val sign_extend = call (l.const_int ty val sign_extend)

  abbrev pub const_real : Ref → Decimal → Action W Ref
  const_real ty n = call (l.const_real ty n)

  -- `Value`
  abbrev pub get_type : Ref → Action W Ref
  get_type value = call (l.type_of value)

  abbrev pub get_params : Ref → Action W (List Ref)
  get_params func = call (l.get_params func)

  unfoldable pub set_name : Ref → Text → Action W (Unit {0})
  set_name value name = do c_name ← expect (c_string name); call (l.set_value_name value c_name)

  -- `verify`: whether the function is sound.
  unfoldable pub verify : Ref → Action W Bool
  verify func = do broken ← call (l.verify_function func); pure (if broken then false else true)

  abbrev pub add_incoming : Ref → List Ref → List Ref → Action W (Unit {0})
  add_incoming phi values blocks = call (l.add_incoming phi values blocks)

  -- `BasicBlock`
  unfoldable pub get_parent : Ref → Action W (Option Ref)
  get_parent block = do value ← call (l.get_basic_block_parent block); pure (non_null value)

  -- `FunctionPassManager`
  abbrev pub new_pass_manager : Ref → Action W Ref
  new_pass_manager mo = call (l.create_function_pass_manager mo)

  abbrev pub initialize : Ref → Action W Bool
  initialize manager = call (l.initialize_function_pass_manager manager)

  abbrev pub run : Ref → Ref → Action W Bool
  run manager func = call (l.run_function_pass_manager manager func)
