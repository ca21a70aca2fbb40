-- ===== src/Identify/Names/Items.antt =====
-- src/identify/names/item_namer.rs: `ItemVarIdentifier`. Its `debug_assert` is left out.
pub mod Runs
pub mod Fresh
use protosnirk.Prelude.{Bool, true, false, Option, none, some, List, [], ◌∷◌, ◌++◌, Text, codes}
use protosnirk.Prelude.Maps.{text_has_eq}
use protosnirk.Prelude.States.{Action, pure, gets, modify, attempt, expect, ◌>>=◌, ◌>>◌}
use protosnirk.Lex.Span.{Span}
use protosnirk.Ast.Index.{ScopedId, incremented, pushed, popped}
use protosnirk.Ast.Identifier
use protosnirk.Ast.Identifier.{Identifier, TypeExpression, set_id, name}
use protosnirk.Ast.Item
use protosnirk.Ast.Item.{
  BlockFnDeclaration, Typedef, Item, SourceUnit, block_fn_declaration, typedef,
}
use protosnirk.Check.Errors.{
  ErrorCollector, Format, new_error, add_error, function_declared, parameter_declared,
  typedef_declared,
}
use protosnirk.Identify.ScopeBuilder.{
  ScopeBuilder, new_scope, pop, get, info_for, define_local, define_global,
}
use protosnirk.Identify.Names.State.{NameScopeBuilder}

pub record ItemVarIdentifier : Type 0 where
  pub errors : ErrorCollector
  pub builder : NameScopeBuilder
  pub current_id : ScopedId

abbrev pub Names : Type 0 → Type 0
Names A = Action ItemVarIdentifier A

abbrev pub complain : List Span → Format → ItemVarIdentifier → ItemVarIdentifier
complain spans text s = record s { errors = add_error (new_error spans text) s.errors }

abbrev on_builder : (NameScopeBuilder → NameScopeBuilder) → ItemVarIdentifier → ItemVarIdentifier
on_builder f s = record s { builder = f s.builder }

abbrev on_id : (ScopedId → ScopedId) → ItemVarIdentifier → ItemVarIdentifier
on_id f s = record s { current_id = f s.current_id }

with_id : ItemVarIdentifier → Option ScopedId → Option ItemVarIdentifier
with_id s none = none
with_id s (some id) = some (record s { current_id = id })

with_builder : ItemVarIdentifier → Option NameScopeBuilder → Option ItemVarIdentifier
with_builder s none = none
with_builder s (some b) = some (record s { builder = b })

unfoldable pub step_id : Names (Unit {0})
unfolding with_id
step_id = attempt λ s. with_id s (incremented s.current_id)

-- `define_local` and `define_global` under the current id.
unfoldable pub define_here : Text → Span → Names (Unit {0})
unfolding with_builder
define_here key sp = attempt λ s. with_builder s (define_local key s.current_id sp s.builder)

unfoldable pub define_outside : Text → Span → Names (Unit {0})
unfolding with_builder
define_outside key sp = attempt λ s. with_builder s (define_global key s.current_id sp s.builder)

-- A parameter that is new.
unfoldable pub name_param : BlockFnDeclaration → Identifier → Names Identifier
name_param f param = do
  define_here (name param) (Identifier.span param)
  define_outside (name f.ident ++ codes "::" ++ name param) f.span
  id ← gets (λ s. s.current_id)
  step_id
  pure (set_id id param)

abbrev Params : Type 0
Params = List (Identifier × TypeExpression)

-- Behind a parameter that is declared already the loop returns from the whole visit.
repeated_param : BlockFnDeclaration → Identifier → Names (Unit {0})
repeated_param f param =
    modify (complain (f.span ∷ []) (parameter_declared (name param) (name f.ident)))

param_on : Option ScopedId → BlockFnDeclaration → Identifier → Names (Bool × Identifier)
unfolding repeated_param
param_on (some id) f param = do repeated_param f param; pure (false, param)
param_on none f param = do param' ← name_param f param; pure (true, param')

-- The rest of the loop, behind one parameter.
params_on :
    Bool → Identifier × TypeExpression → Params → Names (Bool × Params) → Names (Bool × Params)
params_on false param rest visit = pure (false, param ∷ rest)
params_on true param rest visit = do (all, rest') ← visit; pure (all, param ∷ rest')

-- The loop over the parameters: whether it went through, and the parameters.
unfoldable pub name_params : BlockFnDeclaration → Params → Names (Bool × Params)
unfolding param_on params_on
name_params f [] = pure (true, [])
name_params f ((param, ty) ∷ rest) = do
  found ← gets (λ s. get (name param) s.builder)
  (fine, param') ← param_on found f param
  params_on fine (param', ty) rest (name_params f rest)

close_params : Bool → Names (Unit {0})
close_params false = pure tt
close_params true = do modify (λ s. on_builder pop (on_id popped s)); step_id

-- `visit_block_fn_decl` of a name that is new.
unfoldable pub name_fn : BlockFnDeclaration → Names BlockFnDeclaration
unfolding close_params
name_fn f = do
  id ← gets (λ s. s.current_id)
  define_here (name f.ident) f.span
  modify (on_id pushed)
  step_id
  modify (on_builder new_scope)
  (all, params) ← name_params f f.params
  close_params all
  pure (record f { ident = set_id id f.ident; params = params })

unfoldable pub fn_repeated : ScopedId → BlockFnDeclaration → Names BlockFnDeclaration
fn_repeated id f = do
  known ← gets (λ s. info_for id s.builder)
  previous ← expect known
  modify (complain (f.span ∷ previous ∷ []) (function_declared (name f.ident)))
  pure f

fn_on : Option ScopedId → BlockFnDeclaration → Names BlockFnDeclaration
fn_on (some id) f = fn_repeated id f
fn_on none f = name_fn f

unfoldable pub visit_block_fn_decl : BlockFnDeclaration → Names BlockFnDeclaration
unfolding fn_on
visit_block_fn_decl f = do found ← gets (λ s. get (name f.ident) s.builder); fn_on found f

-- `visit_typedef`
unfoldable pub name_typedef : Typedef → Names Typedef
name_typedef t = do
  id ← gets (λ s. s.current_id)
  define_outside (name t.alias_ident) t.span
  step_id
  pure (record t { alias_ident = set_id id t.alias_ident })

typedef_on : Option ScopedId → Typedef → Names Typedef
typedef_on (some id) t = do
  modify (complain (t.span ∷ []) (typedef_declared (name t.alias_ident)))
  pure t
typedef_on none t = name_typedef t

unfoldable pub visit_typedef : Typedef → Names Typedef
unfolding typedef_on
visit_typedef t = do found ← gets (λ s. get (name t.alias_ident) s.builder); typedef_on found t

unfoldable pub visit_item : Item → Names Item
visit_item (block_fn_declaration f) = do f' ← visit_block_fn_decl f; pure (block_fn_declaration f')
visit_item (typedef t) = do t' ← visit_typedef t; pure (typedef t')

unfoldable pub walk_unit : List Item → Names (List Item)
walk_unit [] = pure []
walk_unit (i ∷ rest) = do i' ← visit_item i; rest' ← walk_unit rest; pure (i' ∷ rest')

-- `visit_unit`; the scope stays on the stack.
unfoldable pub visit_unit : SourceUnit → Names SourceUnit
visit_unit u = do
  modify (on_builder new_scope)
  items ← walk_unit u.items
  step_id
  pure (record u { items = items })
