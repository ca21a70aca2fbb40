-- ===== src/Check/Errors.antt =====
-- src/check/errors.rs and src/check/collector.rs. The text of an error is the format that it is
-- made from, with its arguments.
use protosnirk.Prelude.{Option, none, some, List, [], ◌∷◌, ◌++◌, Text}
use protosnirk.Lex.Span.{Span}
use protosnirk.Ast.Index.{ScopedId}

-- What `format!` is called with: the names, and the ids that are printed.
pub data Format : Type 0 where
  function_declared typedef_declared variable_declared : Text → Format
  parameter_declared : Text → Text → Format
  empty_block_expression if_without_else : Format
  unknown_assignment unknown_reference unknown_function unknown_type : Text → Format
  circular_typedef : Text → Format
  conflicting_types : Format → List ScopedId → Format
  no_types : Format → Format
  context_fn context_typedef context_definition context_variable : Text → Format
  context_call context_assignment : Text → Format
  context_param : Text → Text → Format
  context_block context_block_source : ScopedId → Format

pub record CheckerError : Type 0 where
  pub spans : List Span
  pub text : Format

-- `CheckerError::new`
abbrev pub new_error : List Span → Format → CheckerError
new_error spans text = record { spans = spans; text = text }

-- `offender`
abbrev pub offender : CheckerError → Option Span
offender e = elim e.spans [ [] ↦ none | s ∷ ss ↦ some s ]

pub record ErrorCollector : Type 0 where
  pub errors : List CheckerError
  pub warnings : List CheckerError
  pub lints : List CheckerError

-- `ErrorCollector::new`
abbrev pub new_collector : ErrorCollector
new_collector = record { errors = []; warnings = []; lints = [] }

abbrev pub add_error : CheckerError → ErrorCollector → ErrorCollector
add_error e c = record c { errors = c.errors ++ e ∷ [] }

abbrev pub add_warning : CheckerError → ErrorCollector → ErrorCollector
add_warning e c = record c { warnings = c.warnings ++ e ∷ [] }

abbrev pub add_lint : CheckerError → ErrorCollector → ErrorCollector
add_lint e c = record c { lints = c.lints ++ e ∷ [] }

abbrev pub decompose : ErrorCollector → List CheckerError × List CheckerError × List CheckerError
decompose c = (c.errors, c.warnings, c.lints)
