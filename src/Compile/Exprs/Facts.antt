-- ===== src/Compile/Exprs/Facts.antt =====
-- The compiler's state and the meaning of a program side by side, and what stays of it from step to
-- step.
use protosnirk.Prelude.{
  ◌≡◌, refl, ◌∙◌, ap, true, Option, none, some, List, ◌∷◌, Text, codes, text_eq, if◌then◌else◌,
}
use protosnirk.Prelude.Maps.{lookup}
use protosnirk.Prelude.States.{◌>>=◌, ◌>>◌}
use protosnirk.Prelude.Returns.{Returns, Returns-after}
use protosnirk.Ast.Index.{ScopedId, scoped_id_has_eq}
use protosnirk.Identify.ConcreteType.{ConcreteType, FnParams, named_type, fn_type}
use protosnirk.Llvm.Sys.{Ref, TypeKind, void_kind, double_kind, integer_kind}
use protosnirk.Llvm.Execution.{Datum, kind, View, Keeps}
use protosnirk.Compile.State.{ModuleCompiler, Compiles, pop}
use protosnirk.Compile.Exprs.Meaning.{Meaning}

-- The kind of the type that the compiler gives to a name.
abbrev pub kind_named : Text → Option TypeKind
kind_named name =
    if text_eq name (codes "()")
    then some void_kind
    else if text_eq name (codes "bool")
    then some integer_kind
    else if text_eq name (codes "float")
    then some double_kind
    else none

abbrev pub concrete_kind : ConcreteType → Option TypeKind
concrete_kind (named_type name) = kind_named name
concrete_kind (fn_type ps ret) = none

module _ {W F : Type 0} (x : View W F) where
  -- From one state of the compiler to a later one.
  pub record Goes (s t : ModuleCompiler W) : Type 0 where
    pub keeps : Keeps x s.world t.world
    pub scope : t.scope_manager ≡ s.scope_manager
    pub types : t.types ≡ s.types

  -- A variable has a cell, which holds its value, and a type of that value.
  pub record HasVar (s : ModuleCompiler W) (id : ScopedId) (d : Datum F) : Type 0 where
    pub cell : Ref
    pub type : ConcreteType
    pub in_scope : lookup id s.scope_manager ≡ some cell
    pub holds : x.cell s.world cell ≡ some (kind d, some d)
    pub typed : lookup id s.types ≡ some type
    pub has_kind : concrete_kind type ≡ some (kind d)

  -- A function is known, and gives `d` for `ds`.
  pub record HasFn (s : ModuleCompiler W) (id : ScopedId) (ds : List (Datum F)) (d : Datum F)
      : Type 0 where
    pub func : Ref
    pub params : FnParams
    pub ret : ConcreteType
    pub in_scope : lookup id s.scope_manager ≡ some func
    pub typed : lookup id s.types ≡ some (fn_type params ret)
    pub has_kind : concrete_kind ret ≡ some (kind d)
    pub gives : x.runs func ds ≡ some d

  -- The position is reached, and the variables and functions of the meaning are those of the state.
  pub record Fits (m : Meaning F) (s : ModuleCompiler W) : Type 0 where
    pub reached : x.reached s.world ≡ true
    pub types : s.types ≡ m.types
    pub vars : (id : ScopedId) (d : Datum F) → m.var id ≡ some d → HasVar s id d
    pub fns :
        (id : ScopedId) (ds : List (Datum F)) (d : Datum F) → m.fn id ds ≡ some d → HasFn s id ds d
    -- Two variables do not share a cell.
    pub apart :
        (i j : ScopedId) (p : Ref) (c d : Datum F)
        → m.var i ≡ some c
        → m.var j ≡ some d
        → lookup i s.scope_manager ≡ some p
        → lookup j s.scope_manager ≡ some p
        → i ≡ j

  -- Exactly one value has been pushed: it is worth `d`, and the current type is one for it.
  pub record Computed (s : ModuleCompiler W) (d : Datum F) (t : ModuleCompiler W) : Type 0 where
    pub value : Ref
    pub goes : Goes s t
    pub pushed : t.ir_code ≡ value ∷ s.ir_code
    pub worth : x.worth t.world value ≡ some d
    pub has_kind : x.kind_of t.current_type ≡ kind d

  -- The same where the value is at hand, and the current type is still the old one.
  pub record Valued (s : ModuleCompiler W) (d : Datum F) (v : Ref) (t : ModuleCompiler W)
      : Type 0 where
    pub goes : Goes s t
    pub ir_code : t.ir_code ≡ s.ir_code
    pub worth : x.worth t.world v ≡ some d
    pub current : t.current_type ≡ s.current_type

  -- A type of a kind is at hand.
  pub record Typed (s : ModuleCompiler W) (k : TypeKind) (ty : Ref) (t : ModuleCompiler W)
      : Type 0 where
    pub goes : Goes s t
    pub ir_code : t.ir_code ≡ s.ir_code
    pub has_kind : x.kind_of ty ≡ k
    pub current : t.current_type ≡ s.current_type

module _ {W F : Type 0} {x : View W F} where
  Keeps-refl : (w : W) → Keeps x w w
  Keeps-refl w = record { reached = λ h. h; worths = λ v d h. h; cells = λ p c h. h }

  pub Keeps-trans : {u v w : W} → Keeps x u v → Keeps x v w → Keeps x u w
  Keeps-trans h k = record {
    reached = λ e. k.reached (h.reached e);
    worths = λ v d e. k.worths v d (h.worths v d e);
    cells = λ p c e. k.cells p c (h.cells p c e);
  }

  pub Goes-refl : (s : ModuleCompiler W) → Goes x s s
  Goes-refl s = record { keeps = Keeps-refl s.world; scope = refl; types = refl }

  pub Goes-trans : {s t u : ModuleCompiler W} → Goes x s t → Goes x t u → Goes x s u
  Goes-trans h k = record {
    keeps = Keeps-trans h.keeps k.keeps;
    scope = k.scope ∙ h.scope;
    types = k.types ∙ h.types;
  }

  HasVar-Goes :
      {s t : ModuleCompiler W} {id : ScopedId} {d : Datum F}
      → HasVar x s id d
      → Goes x s t
      → HasVar x t id d
  HasVar-Goes h g = record {
    cell = h.cell;
    type = h.type;
    in_scope = rw g.scope h.in_scope;
    holds = g.keeps.cells _ _ h.holds;
    typed = rw g.types h.typed;
    has_kind = h.has_kind;
  }

  abbrev pub HasFn-Goes :
      {s t : ModuleCompiler W} {id : ScopedId} {ds : List (Datum F)} {d : Datum F}
      → HasFn x s id ds d
      → Goes x s t
      → HasFn x t id ds d
  HasFn-Goes h g = record {
    func = h.func;
    params = h.params;
    ret = h.ret;
    in_scope = rw g.scope h.in_scope;
    typed = rw g.types h.typed;
    has_kind = h.has_kind;
    gives = h.gives;
  }

  pub Fits-Goes : {m : Meaning F} {s t : ModuleCompiler W} → Fits x m s → Goes x s t → Fits x m t
  Fits-Goes h g = record {
    reached = g.keeps.reached h.reached;
    types = g.types ∙ h.types;
    vars = λ id d e. HasVar-Goes (h.vars id d e) g;
    fns = λ id ds d e. HasFn-Goes (h.fns id ds d e) g;
    apart = λ i j p c d a b e f. h.apart i j p c d a b (rw g.scope at e) (rw g.scope at f);
  }

  -- A visit that computes a value, and the rest of the block with the value taken off `ir_code`.
  pub take {ℓ} :
      {B : Type ℓ} (Q : B → ModuleCompiler W → Type 0) {d : Datum F} {s : ModuleCompiler W}
      (visit : Compiles W (Unit {0})) (k : Ref → Compiles W B)
      → Returns (λ _. Computed x s d) (visit s)
      → ((v : Ref) (t : ModuleCompiler W)
          → Goes x s t
          → t.ir_code ≡ s.ir_code
          → x.worth t.world v ≡ some d
          → x.kind_of t.current_type ≡ kind d
          → Returns Q (k v t))
      → Returns Q ((visit >> (pop >>= k)) s)
  unfolding ◌>>◌ ◌>>=◌ pop
  take Q visit k r f = Returns-after Q r λ a t c. rw c.pushed (
      f c.value (record t { ir_code = _ })
        (record { keeps = c.goes.keeps; scope = c.goes.scope; types = c.goes.types }) refl c.worth
        c.has_kind)

  pub Computed-Goes :
      {s t : ModuleCompiler W} {d : Datum F} (u : ModuleCompiler W)
      → Goes x s t
      → t.ir_code ≡ s.ir_code
      → Computed x t d u
      → Computed x s d u
  Computed-Goes u g e c = record {
    value = c.value;
    goes = Goes-trans g c.goes;
    pushed = c.pushed ∙ ap (λ vs. c.value ∷ vs) e;
    worth = c.worth;
    has_kind = c.has_kind;
  }
