-- ===== src/Ast/Tests.antt =====
-- src/ast/index.rs: ids at work.
use protosnirk.Prelude.{◌≡◌, [], ◌∷◌, ◌++◌, some, arith}
use protosnirk.Ast.Index.{ScopedId, pushed, popped}
use protosnirk.Ast.Index.{is_subindex_of}
use protosnirk.Ast.Index.Laws.{
  increments, decrements, increments-pushed_lem, subindex_answer, is_subindex_of_lem,
}

abbrev one_two : ScopedId
one_two = record { indices = 1 ∷ 2 ∷ [] }

increments-pushed_lem_example :
    (t : ScopedId) × (increments 300 (pushed one_two) ≡ some t)
    × (t.indices ≡ one_two.indices ++ 300 ∷ [])
    × (popped t ≡ one_two)
    × (decrements 300 t ≡ some (pushed one_two))
increments-pushed_lem_example = increments-pushed_lem one_two 300 (omega arith)

is_subindex_of_lem_example :
    is_subindex_of one_two (pushed one_two) ≡ subindex_answer one_two.indices
is_subindex_of_lem_example = is_subindex_of_lem one_two (pushed one_two)
