-- ===== src/Identify/Typographer/State.antt =====
-- src/identify/types/expr_typographer.rs: the state of `ExprTypographer`. `ItemTypographer` uses its
-- first three fields.
use protosnirk.Prelude.{ℕ, Option, none, some, List, Text}
use protosnirk.Prelude.Maps.{text_has_eq}
use protosnirk.Prelude.States.{Action, gets, modify, expect, ◌>>=◌}
use protosnirk.Lex.Span.{Span}
use protosnirk.Ast.Index.{ScopedId}
use protosnirk.Check.Errors.{ErrorCollector, Format, new_error, add_error}
use protosnirk.Identify.Petgraph.{Petgraph}
use protosnirk.Identify.TypeScope.{TypeScopeBuilder, named_type_id}
use protosnirk.Identify.TypeGraph.{TypeGraph, TypeNode, InferenceSource, get_type, add_inference}

pub record Typographer (G : Type 0) : Type 0 where
  pub builder : TypeScopeBuilder
  pub errors : ErrorCollector
  pub graph : TypeGraph G
  pub current_type : ℕ
  pub fn_ret_type : ℕ

abbrev pub Typing {ℓ} : Type 0 → Type ℓ → Type ℓ
Typing G A = Action (Typographer G) A

module _ {G : Type 0} where
  -- `ExprTypographer::new`
  abbrev pub new : TypeScopeBuilder → ErrorCollector → TypeGraph G → Typographer G
  new builder errors graph = record {
    builder = builder;
    errors = errors;
    graph = graph;
    current_type = 0;
    fn_ret_type = 0;
  }

  on_graph {ℓ} :
      {A : Type ℓ} → Typographer G → Option (A × TypeGraph G) → Option (A × Typographer G)
  on_graph s none = none
  on_graph s (some (a, g)) = some (a, record s { graph = g })

  -- A step of the graph.
  unfoldable pub graphs {ℓ} : {A : Type ℓ} → Action (TypeGraph G) A → Typing G A
  unfolding on_graph
  graphs m s = on_graph s (m s.graph)

  abbrev pub set_current : ℕ → Typing G (Unit {0})
  set_current ix = modify λ s. record s { current_type = ix }

  abbrev pub current : Typing G ℕ
  current = gets (λ s. s.current_type)

  abbrev pub complain : List Span → Format → Typing G (Unit {0})
  complain spans text = modify λ s. record s { errors = add_error (new_error spans text) s.errors }

  abbrev graph_type : Option ScopedId → TypeGraph G → Option ℕ
  graph_type none g = none
  graph_type (some id) g = get_type id g

  -- `primitive_type_ix`
  unfoldable pub primitive_type_ix : Text → Typing G ℕ
  primitive_type_ix name = do
    found ← gets (λ s. graph_type (named_type_id name s.builder) s.graph)
    expect found

module _ {G : Type 0} ⦃p : Petgraph G TypeNode InferenceSource⦄ where
  abbrev pub infer : ℕ → ℕ → InferenceSource → Typing G (Unit {0})
  infer src dest source = graphs (add_inference src dest source)
