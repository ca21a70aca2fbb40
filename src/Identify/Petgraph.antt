-- ===== src/Identify/Petgraph.antt =====
-- The part of `petgraph::Graph` and of its `Dfs` that src/identify/types/type_graph.rs calls, as an
-- interface: nodes are known by index, and `none` is a panic. The code of petgraph is not here.

pub mod History
use mathlib.Core.List.{Memᴰ}
use protosnirk.Prelude.{ℕ, ◌≡◌, ◌↔◌, Option, some, List}

-- `N` is the type of what a node holds, and `E` of what an edge holds.
pub record Petgraph (G N E : Type 0) : Type 0 where
  -- `Graph::default`
  pub empty : G
  -- `add_node`, and the index of the new node.
  pub add_node : N → G → Option (ℕ × G)
  -- `add_edge`, from the first node to the second one.
  pub add_edge : ℕ → ℕ → E → G → Option G
  -- `graph[ix]`
  pub weight : ℕ → G → Option N
  -- The nodes that `Dfs` comes to from a node, in its order.
  pub dfs : ℕ → G → List ℕ

-- Reachability along the edges that `step` has.
pub data Reaches (step : ℕ → ℕ → Type 0) : ℕ → ℕ → Type 0 where
  here : {a : ℕ} → Reaches step a a
  along : {a b c : ℕ} → step a b → Reaches step b c → Reaches step a c

-- What petgraph documents of a search: it comes to the nodes that can be reached from its start, if
-- the start is in the graph, and to no others, and each is in the graph.
pub record IsLawful {G N E : Type 0} (p : Petgraph G N E) (Edge : G → ℕ → ℕ → Type 0) : Type 0 where
  pub dfs-Reaches :
      (g : G) (a : ℕ) (n : N)
      → p.weight a g ≡ some n
      → (b : ℕ) → Memᴰ b (p.dfs a g) ↔ Reaches (Edge g) a b
  pub dfs-weight : (g : G) (a b : ℕ) → Memᴰ b (p.dfs a g) → (n : N) × (p.weight b g ≡ some n)
