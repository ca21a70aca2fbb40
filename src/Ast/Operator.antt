-- ===== src/Ast/Operator.antt =====
-- src/ast/operator.rs.
pub data BinaryOperator : Type 0 where
  addition subtraction multiplication division modulus : BinaryOperator
  equality non_equality less_than greater_than less_than_equals greater_than_equals : BinaryOperator

pub data UnaryOperator : Type 0 where
  negation addition : UnaryOperator
