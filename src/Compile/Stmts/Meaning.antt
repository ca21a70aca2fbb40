-- ===== src/Compile/Stmts/Meaning.antt =====
-- What statements without branches do to the variables.
use protosnirk.Prelude.{ℕ, ◌+◌, ◌≡◌, Bool, false, Option, none, some, if◌then◌else◌}
use protosnirk.Prelude.Maps.{lookup}
use protosnirk.Ast.Identifier
use protosnirk.Ast.Identifier.{Identifier, TypeExpression}
use protosnirk.Ast.Index.{ScopedId, same_id, scoped_id_has_eq}
use protosnirk.Ast.Expression.{Expression, assignment}
use protosnirk.Ast.Stmt.{Statement, Statements, expression, declaration, no_stmts, stmt}
use protosnirk.Lex.Span.{Span}
use protosnirk.Identify.ConcreteType.{ConcreteType}
use protosnirk.Llvm.Values.{has_nul}
use protosnirk.Llvm.Execution.{Datum, kind}
use protosnirk.Compile.Exprs.Meaning.{Meaning, eval, IsCompilable}
use protosnirk.Compile.Exprs.Facts.{concrete_kind}

module _ {F : Type 0} where
  -- A variable takes a value.
  unfoldable pub bind : ScopedId → Datum F → Meaning F → Meaning F
  bind id d m = record m {
    var = λ j. if same_id id j then some d else m.var j;
    fn = λ j ds. if same_id id j then none else m.fn j ds;
  }

  -- A declaration and an assignment bind a variable, whose type is one for its value; a value on its
  -- own changes nothing. The number counts the values that stand on their own.
  pub data Step : Meaning F → Statement → ℕ → Meaning F → Type 0 where
    declares :
        {m : Meaning F} {mutable : Bool} {ident : Identifier} {decl : Option TypeExpression}
        {e : Expression} {sp : Span} {d : Datum F} {ty : ConcreteType}
        → IsCompilable m e
        → eval m e ≡ some d
        → has_nul (Identifier.name ident) ≡ false
        → lookup ident.id m.types ≡ some ty
        → concrete_kind ty ≡ some (kind d)
        → Step m (declaration mutable ident decl e sp) 0 (bind ident.id d m)
    assigns :
        {m : Meaning F} {ident : Identifier} {e : Expression} {d c : Datum F}
        → IsCompilable m e
        → eval m e ≡ some d
        → m.var ident.id ≡ some c
        → kind c ≡ kind d
        → Step m (expression (assignment ident e)) 0 (bind ident.id d m)
    value :
        {m : Meaning F} {e : Expression} {d : Datum F}
        → IsCompilable m e
        → eval m e ≡ some d
        → Step m (expression e) 1 m

  pub data Steps : Meaning F → Statements → ℕ → Meaning F → Type 0 where
    done : {m : Meaning F} → Steps m no_stmts 0 m
    next :
        {m o q : Meaning F} {s : Statement} {rest : Statements} {i j : ℕ}
        → Step m s i o
        → Steps o rest j q
        → Steps m (stmt s rest) (i + j) q
