-- ===== src/Compile/Exprs/Meaning.antt =====
-- What expressions without branches mean: the value of an expression, given the values of its
-- variables and the functions that it calls. It looks at no instruction.
use protosnirk.Prelude.{
  ◌≡◌, Bool, false, Option, none, some, List, [], ◌∷◌, ◌++◌, Text, text_eq, if◌then◌else◌,
}
use protosnirk.Prelude.Maps.{lookup}
use protosnirk.Ast.Identifier
use protosnirk.Ast.Index.{ScopedId, scoped_id_has_eq}
use protosnirk.Ast.Operator.{
  BinaryOperator, UnaryOperator, addition, subtraction, multiplication, division, modulus, equality,
  non_equality, less_than, greater_than, less_than_equals, greater_than_equals, negation,
}
use protosnirk.Ast.Expression.{
  Expression, CallArguments, LiteralValue, literal, variable_ref, binary_op, unary_op,
  if_expression, fn_call, assignment, no_arguments, argument, bool, float, unit,
}
use protosnirk.Check.Concretifier.{TypeMapping}
use protosnirk.Identify.ConcreteType.{ConcreteType, FnParams, fn_type, no_params, fn_param}
use protosnirk.Llvm.Sys.{real_oeq, real_one, real_olt, real_ole, real_ogt, real_oge}
use protosnirk.Llvm.Values.{has_nul}
use protosnirk.Llvm.Execution.{Datum, real, bit, same, Arithmetic}
use protosnirk.Compile.Exprs.{zero_literal}

pub record Meaning (F : Type 0) : Type 0 where
  pub arithmetic : Arithmetic F
  pub negated : F → F
  pub types : TypeMapping
  pub var : ScopedId → Option (Datum F)
  pub fn : ScopedId → List (Datum F) → Option (Datum F)

abbrev pub for_some {ℓ κ} : {A : Type ℓ} {B : Type κ} → Option A → (A → Option B) → Option B
for_some none f = none
for_some (some a) f = f a

module _ {F : Type 0} where
  abbrev pub literal_datum : Arithmetic F → LiteralValue → Option (Datum F)
  literal_datum a (bool b) = some (bit b)
  literal_datum a (float f) = some (real (a.of_decimal f))
  literal_datum a unit = none

  abbrev pub on_reals : Arithmetic F → BinaryOperator → F → F → Datum F
  on_reals a addition m n = real (a.add m n)
  on_reals a subtraction m n = real (a.sub m n)
  on_reals a multiplication m n = real (a.mul m n)
  on_reals a division m n = real (a.div m n)
  on_reals a modulus m n = real (a.rem m n)
  on_reals a equality m n = bit (a.compare real_oeq m n)
  on_reals a non_equality m n = bit (a.compare real_one m n)
  on_reals a less_than m n = bit (a.compare real_olt m n)
  on_reals a less_than_equals m n = bit (a.compare real_ole m n)
  on_reals a greater_than m n = bit (a.compare real_ogt m n)
  on_reals a greater_than_equals m n = bit (a.compare real_oge m n)

  abbrev pub on_bits : BinaryOperator → Bool → Bool → Option (Datum F)
  on_bits equality m n = some (bit (same m n))
  on_bits _ m n = none

  abbrev pub binary : Arithmetic F → BinaryOperator → Datum F → Datum F → Option (Datum F)
  binary a op (real m) (real n) = some (on_reals a op m n)
  binary a op (bit m) (bit n) = on_bits op m n
  binary a op _ _ = none

  abbrev pub unary : (F → F) → UnaryOperator → Datum F → Option (Datum F)
  unary negated negation (real n) = some (real (negated n))
  unary negated UnaryOperator.addition (real n) = some (real n)
  unary negated op (bit b) = none

  -- The value of the first argument with a parameter's name, if there is one.
  unfoldable pub named_values : Text → List (Text × Option (Datum F)) → Option (List (Datum F))
  named_values name [] = some []
  named_values name ((arg, value) ∷ rest) =
      if text_eq arg name then for_some value (λ d. some (d ∷ [])) else named_values name rest

  -- The values of the arguments in the order of the parameters.
  unfoldable pub params_values : FnParams → List (Text × Option (Datum F)) → Option (List (Datum F))
  params_values no_params args = some []
  params_values (fn_param name ty rest) args =
      for_some (named_values name args)
        λ ds. for_some (params_values rest args) λ es. some (ds ++ es)

  unfoldable pub call_value :
      (List (Datum F) → Option (Datum F))
      → Option ConcreteType
      → List (Text × Option (Datum F))
      → Option (Datum F)
  call_value f (some (fn_type params ret)) args = for_some (params_values params args) f
  call_value f _ args = none

  unfoldable mutual
    -- An assignment has no value.
    pub eval : Meaning F → Expression → Option (Datum F)
    eval m (literal lit) = literal_datum m.arithmetic lit.value
    eval m (variable_ref ident) = m.var ident.id
    eval m (binary_op op lhs rhs sp) =
        for_some (eval m lhs) λ a. for_some (eval m rhs) λ b. binary m.arithmetic op a b
    eval m (unary_op op e sp) = for_some (eval m e) λ a. unary m.negated op a
    eval m (if_expression c t e sp) = none
    eval m (fn_call ident args sp) =
        call_value (m.fn ident.id) (lookup ident.id m.types) (argument_values m args)
    eval m (assignment ident e) = none

    pub argument_values : Meaning F → CallArguments → List (Text × Option (Datum F))
    argument_values m no_arguments = []
    argument_values m (argument param e rest) =
        (Identifier.name param, eval m e) ∷ argument_values m rest

  -- A negation means that zero is subtracted from its operand.
  abbrev pub NegatesBySub : Meaning F → Type 0
  NegatesBySub m = (n : F) → m.negated n ≡ m.arithmetic.sub n (m.arithmetic.of_decimal zero_literal)

  abbrev pub OperatorFits : Meaning F → UnaryOperator → Type 0
  OperatorFits m negation = NegatesBySub m
  OperatorFits m UnaryOperator.addition = Unit

  -- No variable has a NUL in its name, and a negation, if there is one, subtracts zero.
  unfoldable mutual
    pub IsCompilable : Meaning F → Expression → Type 0
    IsCompilable m (literal lit) = Unit
    IsCompilable m (variable_ref ident) = has_nul (Identifier.name ident) ≡ false
    IsCompilable m (binary_op op lhs rhs sp) = IsCompilable m lhs × IsCompilable m rhs
    IsCompilable m (unary_op op e sp) = OperatorFits m op × IsCompilable m e
    IsCompilable m (if_expression c t e sp) = Unit
    IsCompilable m (fn_call ident args sp) = AreCompilable m args
    IsCompilable m (assignment ident e) = Unit

    pub AreCompilable : Meaning F → CallArguments → Type 0
    AreCompilable m no_arguments = Unit
    AreCompilable m (argument param e rest) = IsCompilable m e × AreCompilable m rest
