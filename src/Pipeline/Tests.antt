-- ===== src/Pipeline/Tests.antt =====
-- src/identify/types/type_graph.rs and src/pipeline: a graph and a runner.
use protosnirk.Prelude.{◌≡◌, refl, some, [], ◌∷◌, codes}
use protosnirk.Prelude.Maps.{lookup}
use protosnirk.Ast.Index.{ScopedId, scoped_id_has_eq, same_id}
use protosnirk.Check.Errors.{new_collector}
use protosnirk.Identify.ScopeBuilder as Scopes
use protosnirk.Identify.Petgraph.History.{
  History, start, node, edge, Edge, history_petgraph, history-IsLawful, connect-returns,
}
use protosnirk.Identify.TypeGraph.{
  TypeGraph, TypeNode, concrete_type, variable_type, infer_type_of_var, variable,
}
use protosnirk.Identify.TypeGraph.Inference.{Answers, infer_type_of_var-Answers}
use protosnirk.Pipeline.{Runner, identify}
use protosnirk.Pipeline.Reports.{Identified, identify-Identified}
use protosnirk.Identify.Types.Items.Primitives.{with_primitives-Named}
use protosnirk.Identify.Names.Tests.{a_unit, primitives, with_primitives_lem, fresh_default}

abbrev var : ScopedId
var = record { indices = 0 ∷ 1 ∷ [] }

-- A variable that a declaration gives the type with the id `[1]`.
abbrev typed_var : TypeGraph (History TypeNode)
typed_var = record {
  graph =
      edge 1 0
        (node (variable_type var) (node (concrete_type (record { indices = 1 ∷ [] })) start));
  types = (record { indices = 1 ∷ [] }, 0) ∷ [];
  variables = (var, 1) ∷ [];
}

var_known : variable var typed_var ≡ some 1
unfolding lookup same_id
var_known = refl

infer_type_of_var-Answers_example :
    Answers Edge history-IsLawful 1 typed_var (infer_type_of_var var typed_var)
infer_type_of_var-Answers_example =
    infer_type_of_var-Answers Edge history-IsLawful var typed_var 1 (variable_type var) var_known
      refl
      (λ k id c. connect-returns typed_var.graph 1 k (variable_type var) (concrete_type id) refl c)

-- A function and a type definition, whose type is not known.
abbrev a_runner : Runner (History TypeNode)
a_runner = record {
  name = codes "main";
  source = a_unit;
  errors = new_collector;
  name_builder = Scopes.new;
  type_builder = primitives;
  graph = typed_var;
}

identify-Identified_example : Identified a_runner (identify a_runner)
identify-Identified_example =
    identify-Identified a_runner tt (with_primitives-Named primitives with_primitives_lem)
      ((fresh_default, tt), fresh_default, (fresh_default, tt))
