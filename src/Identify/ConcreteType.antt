-- ===== src/Identify/ConcreteType.antt =====
-- src/identify/concrete_type.rs.
use protosnirk.Prelude.{Text}

-- `ConcreteType`, with `NamedType` and `FnType`; `FnParams` is the list of a function's parameters.
mutual
  pub data ConcreteType : Type 0 where
    named_type : Text → ConcreteType
    fn_type : FnParams → ConcreteType → ConcreteType

  pub data FnParams : Type 0 where
    no_params : FnParams
    fn_param : Text → ConcreteType → FnParams → FnParams
