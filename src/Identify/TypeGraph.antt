-- ===== src/Identify/TypeGraph.antt =====
-- src/identify/types/type_graph.rs and src/identify/types/inference_source.rs.
pub mod Inference
use protosnirk.Prelude.{ℕ, Option, none, some, List, [], ◌∷◌, ◌⊎◌, inl, inr, Text}
use protosnirk.Prelude.Maps.{Map, lookup, insert}
use protosnirk.Prelude.States.{Action, pure, panic, gets, modify, expect, attempt, ◌>>=◌, ◌>>◌}
use protosnirk.Ast.Index.{ScopedId, default_id, incremented, scoped_id_has_eq}
use protosnirk.Ast.Identifier.{Identifier}
use protosnirk.Ast.Expression.{Literal}
use protosnirk.Identify.Petgraph.{Petgraph}

-- `CallArgSpecifier`
pub data CallArgSpecifier : Type 0 where
  by_index : ℕ → CallArgSpecifier
  by_name : Text → CallArgSpecifier

pub data TypeNode : Type 0 where
  variable_type concrete_type : ScopedId → TypeNode
  expression_type : TypeNode
  call_arg : CallArgSpecifier → ℕ → TypeNode
  call_return : ℕ → TypeNode

pub data InferenceSource : Type 0 where
  fn_signature fn_return_type fn_parameter typedef_alias : Identifier → InferenceSource
  call_argument call_return_type explicit_decl from_declaration : Identifier → InferenceSource
  literal_value : Literal → InferenceSource
  if_conditional_bool if_branches_same explicit_return implicit_return : InferenceSource
  from_assignment numeric_operator boolean_operator equality_operator inferred : InferenceSource

pub record TypeGraph (G : Type 0) : Type 0 where
  pub graph : G
  pub types : Map ScopedId ℕ
  pub variables : Map ScopedId ℕ

abbrev first_of : Option ℕ → Option ℕ → Option ℕ
first_of none y = y
first_of (some x) y = some x

abbrev pub Graphs {ℓ} : Type 0 → Type ℓ → Type ℓ
Graphs G A = Action (TypeGraph G) A

-- The id of a node for a concrete type.
abbrev pub concrete_id : TypeNode → Option ScopedId
concrete_id (concrete_type id) = some id
concrete_id _ = none

unfoldable pub keep : ℕ → Option ScopedId → List (ℕ × ScopedId) → List (ℕ × ScopedId)
keep ix none found = found
keep ix (some id) found = (ix, id) ∷ found

-- `self.graph[next_ix]`, in front of the rest.
unfoldable pub found_at :
    ℕ → Option TypeNode → Option (List (ℕ × ScopedId)) → Option (List (ℕ × ScopedId))
unfolding keep
found_at ix none rest = none
found_at ix (some n) none = none
found_at ix (some n) (some found) = some (keep ix (concrete_id n) found)

abbrev pub ids : List (ℕ × ScopedId) → List ScopedId
ids [] = []
ids ((ix, id) ∷ rest) = id ∷ ids rest

module _ {G : Type 0} where
  -- `get_type`
  abbrev pub get_type : ScopedId → TypeGraph G → Option ℕ
  get_type ty g = first_of (lookup ty g.types) (lookup ty g.variables)

  -- `variable`
  abbrev pub variable : ScopedId → TypeGraph G → Option ℕ
  variable var g = lookup var g.variables

module _ {G : Type 0} ⦃p : Petgraph G TypeNode InferenceSource⦄ where
  with_node : TypeGraph G → Option (ℕ × G) → Option (ℕ × TypeGraph G)
  with_node g none = none
  with_node g (some (ix, graph)) = some (ix, record g { graph = graph })

  unfoldable pub add_node : TypeNode → Graphs G ℕ
  unfolding with_node
  add_node node g = with_node g (p.add_node node g.graph)

  unfoldable pub new_type : ScopedId → Graphs G ℕ
  new_type ty = do
    ix ← add_node (concrete_type ty)
    modify λ g. record g { types = insert ty ix g.types }
    pure ix

  type_on : Option ℕ → ScopedId → Graphs G ℕ
  type_on (some ix) ty = pure ix
  type_on none ty = new_type ty

  unfoldable pub add_type : ScopedId → Graphs G ℕ
  unfolding type_on
  add_type ty g = type_on (get_type ty g) ty g

  unfoldable pub new_variable : ScopedId → Graphs G ℕ
  new_variable var = do
    ix ← add_node (variable_type var)
    modify λ g. record g { variables = insert var ix g.variables }
    pure ix

  variable_on : Option ℕ → ScopedId → Graphs G ℕ
  variable_on (some ix) var = pure ix
  variable_on none var = new_variable var

  unfoldable pub add_variable : ScopedId → Graphs G ℕ
  unfolding variable_on
  add_variable var g = variable_on (variable var g) var g

  abbrev pub add_expression : Graphs G ℕ
  add_expression = add_node expression_type

  abbrev pub add_named_call_arg : Text → ℕ → Graphs G ℕ
  add_named_call_arg name fn_index = add_node (call_arg (by_name name) fn_index)

  abbrev pub add_call_arg : ℕ → ℕ → Graphs G ℕ
  add_call_arg index fn_index = add_node (call_arg (by_index index) fn_index)

  abbrev pub add_call_return_type : ℕ → Graphs G ℕ
  add_call_return_type function = add_node (call_return function)

  with_graph : TypeGraph G → Option G → Option (TypeGraph G)
  with_graph g none = none
  with_graph g (some graph) = some (record g { graph = graph })

  -- `add_inference`, without the index of the edge, which no caller reads.
  unfoldable pub add_inference : ℕ → ℕ → InferenceSource → Graphs G (Unit {0})
  unfolding with_graph
  add_inference src dest source = attempt (λ g. with_graph g (p.add_edge src dest source g.graph))

  -- The nodes for concrete types among those that the search comes to, with their ids.
  unfoldable pub found_types : List ℕ → G → Option (List (ℕ × ScopedId))
  unfolding found_at
  found_types [] g = some []
  found_types (ix ∷ rest) g = found_at ix (p.weight ix g) (found_types rest g)

  -- The end of `infer_type_of_var`: `inl` is its `Ok`.
  unfoldable pub inferred_from : ℕ → List (ℕ × ScopedId) → Graphs G ((ℕ × ScopedId) ⊎ List ScopedId)
  inferred_from var_ix ((ix, id) ∷ []) = do add_inference var_ix ix inferred; pure (inl (ix, id))
  inferred_from var_ix [] = pure (inr [])
  inferred_from var_ix (x ∷ y ∷ rest) = pure (inr (ids (x ∷ y ∷ rest)))

  infer_at : Option ℕ → Graphs G ((ℕ × ScopedId) ⊎ List ScopedId)
  unfolding found_types
  infer_at none = panic
  infer_at (some ix) = do
    searched ← gets (λ g. found_types (p.dfs ix g.graph) g.graph)
    found ← expect searched
    inferred_from ix found

  -- `infer_type_of_var`; `none` is its panic on an unknown variable.
  unfoldable pub infer_type_of_var : ScopedId → Graphs G ((ℕ × ScopedId) ⊎ List ScopedId)
  unfolding infer_at
  infer_type_of_var var g = infer_at (variable var g) g

  -- The loop of `with_primitives`, on the number of the types.
  add_primitives : List Text → ScopedId → Graphs G (Unit {0})
  add_primitives [] id = pure tt
  add_primitives (name ∷ names) id = do
    add_type id
    next ← expect (incremented id)
    add_primitives names next

  abbrev default_graph : TypeGraph G
  default_graph = record { graph = p.empty; types = []; variables = [] }

  abbrev final : Option (Unit {0} × TypeGraph G) → Option (TypeGraph G)
  final none = none
  final (some (u, g)) = some g

  -- `TypeGraph::with_primitives`
  unfoldable pub with_primitives : List Text → Option (TypeGraph G)
  unfolding add_primitives
  with_primitives names =
      final ((expect (incremented default_id) >>= add_primitives names) default_graph)
