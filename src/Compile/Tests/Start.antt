-- ===== src/Compile/Tests/Start.antt =====
-- src/compile: a state with a variable and a function, over a recorded run.
use protosnirk.Prelude.{
  ℕ, ◌-◌, ◌≡◌, refl, sym, ◌∙◌, ap, subst, eq_of_some, Bool, true, false, none, some, List, [], ◌∷◌,
  Text, codes, text_eq, if◌then◌else◌,
}
use protosnirk.Prelude.Maps.{lookup}
use protosnirk.Lex.Span.{Span, origin, between}
use protosnirk.Lex.Token
use protosnirk.Lex.Token.{Token, symbol}
use protosnirk.Ast.Index.{ScopedId, same_id, same_id_iff, scoped_id_has_eq}
use protosnirk.Ast.Identifier
use protosnirk.Ast.Identifier.{Identifier, set_id}
use protosnirk.Check.Concretifier.{TypeMapping}
use protosnirk.Identify.ConcreteType.{ConcreteType, named_type, fn_type, no_params, fn_param}
use protosnirk.Llvm.Sys.{double_kind}
use protosnirk.Llvm.Execution.{Datum, real, kind}
use protosnirk.Llvm.Recorder.{Recorder, recorder, recorded, naturals, subtracts}
use protosnirk.Compile.State.{ModuleCompiler}
use protosnirk.Compile.Exprs.Meaning.{Meaning}
use protosnirk.Compile.Exprs.Facts.{Fits, HasVar, HasFn}

abbrev pub sp : Span
sp = between origin origin

abbrev pub ident : Text → ScopedId → Identifier
ident x id = set_id id (Identifier.new (Token.new x origin symbol))

abbrev pub x_id : ScopedId
x_id = record { indices = 0 ∷ 1 ∷ [] }

abbrev pub y_id : ScopedId
y_id = record { indices = 0 ∷ 2 ∷ [] }

abbrev pub f_id : ScopedId
f_id = record { indices = 1 ∷ [] }

abbrev pub float_type : ConcreteType
float_type = named_type (codes "float")

-- `x` is 7, and `f` takes `a` and `b`.
abbrev type_map : TypeMapping
type_map =
    (x_id, float_type)
    ∷ (y_id, float_type)
    ∷ (
      f_id,
      fn_type (fn_param (codes "a") float_type (fn_param (codes "b") float_type no_params))
          float_type,
    )
    ∷ []

abbrev pub meaning : Meaning ℕ
meaning = record {
  arithmetic = naturals;
  negated = λ n. n - 0;
  types = type_map;
  var = λ id. if same_id x_id id then some (real 7) else none;
  fn = λ id ds. if same_id f_id id then subtracts 5 ds else none;
}

abbrev pub start : ModuleCompiler Recorder
start = record {
  world = record { values = []; cells = (double_kind, some (real 7)) ∷ [] };
  module_provider = record { llvm_module = 1; fn_pass_manager = 1 };
  optimizations = false;
  context = 1;
  builder = 1;
  ir_code = [];
  current_type = 0;
  types = type_map;
  scope_manager = (x_id, 0) ∷ (f_id, 5) ∷ [];
}

x_var : HasVar recorded start x_id (real 7)
unfolding lookup same_id text_eq
x_var = record {
  cell = 0;
  type = float_type;
  in_scope = refl;
  holds = refl;
  typed = refl;
  has_kind = refl;
}

var_of :
    (id : ScopedId) (d : Datum ℕ) (b : Bool)
    → same_id x_id id ≡ b
    → (if b then some (real 7) else none) ≡ some d
    → HasVar recorded start id d
var_of id d true q h =
    subst (λ k. HasVar recorded start k d) ((same_id_iff x_id id).0 q)
      (subst (λ c. HasVar recorded start x_id c) (eq_of_some h) x_var)
var_of id d false q h = cc

fn_of :
    (id : ScopedId) (ds : List (Datum ℕ)) (d : Datum ℕ) (b : Bool)
    → same_id f_id id ≡ b
    → (if b then subtracts 5 ds else none) ≡ some d
    → HasFn recorded start id ds d
unfolding lookup same_id text_eq
fn_of id (real m ∷ real n ∷ []) d true q h =
    subst (λ k. HasFn recorded start k (real m ∷ real n ∷ []) d) ((same_id_iff f_id id).0 q)
      record {
        func = 5;
        params = fn_param (codes "a") float_type (fn_param (codes "b") float_type no_params);
        ret = float_type;
        in_scope = refl;
        typed = refl;
        has_kind = ap (λ e. some (kind e)) (eq_of_some h);
        gives = h;
      }
fn_of id ds d true q h = cc
fn_of id ds d false q h = cc

only_x :
    (id : ScopedId) (d : Datum ℕ) (b : Bool)
    → same_id x_id id ≡ b
    → (if b then some (real 7) else none) ≡ some d
    → x_id ≡ id
only_x id d true q h = (same_id_iff x_id id).0 q
only_x id d false q h = cc

pub start-Fits : Fits recorded meaning start
start-Fits = record {
  reached = refl;
  types = refl;
  vars = λ id d h. var_of id d (same_id x_id id) refl h;
  fns = λ id ds d h. fn_of id ds d (same_id f_id id) refl h;
  apart = λ i j p c d h k e f.
      sym (only_x i c (same_id x_id i) refl h) ∙ only_x j d (same_id x_id j) refl k;
}
