-- ===== src/Compile/Stmts/Bound.antt =====
-- What the compiler's state is where a variable takes a value.
use protosnirk.Prelude.{
  ◌≡◌, ◌≢◌, refl, sym, ◌∙◌, subst, eq_of_some, Bool, true, false, none, some, List, if◌then◌else◌,
}
use protosnirk.Prelude.Maps.{lookup}
use protosnirk.Ast.Index.{ScopedId, same_id, same_id_iff, scoped_id_has_eq}
use protosnirk.Identify.ConcreteType.{ConcreteType}
use protosnirk.Llvm.Sys.{Ref}
use protosnirk.Llvm.Execution.{Datum, kind, View}
use protosnirk.Compile.State.{ModuleCompiler}
use protosnirk.Compile.Exprs.Meaning.{Meaning}
use protosnirk.Compile.Exprs.Facts.{HasVar, HasFn, Fits, concrete_kind}
use protosnirk.Compile.Stmts.Meaning.{bind}

-- A variable takes a value: its cell holds it, the cell is of no other variable, and those have kept
-- what they hold.
pub record Bound {W F : Type 0} (x : View W F) (m : Meaning F) (id : ScopedId) (d : Datum F)
    (s t : ModuleCompiler W) : Type 0 where
  pub cell : Ref
  pub type : ConcreteType
  pub reached : x.reached t.world ≡ true
  pub types : t.types ≡ s.types
  pub typed : lookup id s.types ≡ some type
  pub has_kind : concrete_kind type ≡ some (kind d)
  pub holds : x.cell t.world cell ≡ some (kind d, some d)
  pub scope :
      (j : ScopedId)
      → lookup j t.scope_manager ≡ (if same_id id j then some cell else lookup j s.scope_manager)
  pub apart :
      (j : ScopedId) (e : Datum F)
      → m.var j ≡ some e
      → same_id id j ≡ false
      → (h : HasVar x s j e) → h.cell ≢ cell
  pub others :
      (j : ScopedId) (e : Datum F)
      → m.var j ≡ some e
      → same_id id j ≡ false
      → (h : HasVar x s j e) → x.cell t.world h.cell ≡ some (kind e, some e)

module _ {W F : Type 0} {x : View W F} (m : Meaning F) (id : ScopedId) (d : Datum F)
    (s t : ModuleCompiler W) (fits : Fits x m s) (b : Bound x m id d s t) where
  same_refl : same_id id id ≡ true
  same_refl = (same_id_iff id id).1 refl

  bound_var : HasVar x t id d
  bound_var = record {
    cell = b.cell;
    type = b.type;
    in_scope = rw same_refl at (b.scope id);
    holds = b.holds;
    typed = rw b.types b.typed;
    has_kind = b.has_kind;
  }

  var_at :
      (j : ScopedId) (e : Datum F) (y : Bool)
      → same_id id j ≡ y
      → (if y then some d else m.var j) ≡ some e
      → HasVar x t j e
  var_at j e true q h =
      subst (λ k. HasVar x t k e) ((same_id_iff id j).0 q)
        (subst (λ c. HasVar x t id c) (eq_of_some h) bound_var)
  var_at j e false q h =
      let v = fits.vars j e h in
      record {
        cell = v.cell;
        type = v.type;
        in_scope = rw q at (b.scope j) ∙ v.in_scope;
        holds = b.others j e h q v;
        typed = rw b.types v.typed;
        has_kind = v.has_kind;
      }

  fn_at :
      (j : ScopedId) (ds : List (Datum F)) (e : Datum F) (y : Bool)
      → same_id id j ≡ y
      → (if y then none else m.fn j ds) ≡ some e
      → HasFn x t j ds e
  fn_at j ds e true q h = cc
  fn_at j ds e false q h =
      let f = fits.fns j ds e h in
      record {
        func = f.func;
        params = f.params;
        ret = f.ret;
        in_scope = rw q at (b.scope j) ∙ f.in_scope;
        typed = rw b.types f.typed;
        has_kind = f.has_kind;
        gives = f.gives;
      }

  -- No other variable has the cell.
  not_shared :
      (j : ScopedId) (p : Ref) (e : Datum F)
      → same_id id j ≡ false
      → m.var j ≡ some e
      → lookup j s.scope_manager ≡ some p
      → p ≢ b.cell
  not_shared j p e q h k same =
      let v = fits.vars j e h in b.apart j e h q v (eq_of_some (sym v.in_scope ∙ k) ∙ same)

  apart_at :
      (i j : ScopedId) (p : Ref) (c e : Datum F) (y z : Bool)
      → same_id id i ≡ y
      → same_id id j ≡ z
      → (if y then some d else m.var i) ≡ some c
      → (if z then some d else m.var j) ≡ some e
      → (if y then some b.cell else lookup i s.scope_manager) ≡ some p
      → (if z then some b.cell else lookup j s.scope_manager) ≡ some p
      → i ≡ j
  apart_at i j p c e true true qi qj hi hj pi pj =
      sym ((same_id_iff id i).0 qi) ∙ (same_id_iff id j).0 qj
  apart_at i j p c e true false qi qj hi hj pi pj =
      absurd (not_shared j p e qj hj pj (sym (eq_of_some pi)))
  apart_at i j p c e false true qi qj hi hj pi pj =
      absurd (not_shared i p c qi hi pi (sym (eq_of_some pj)))
  apart_at i j p c e false false qi qj hi hj pi pj = fits.apart i j p c e hi hj pi pj

  pub bound-Fits : Fits x (bind id d m) t
  unfolding bind
  bound-Fits = record {
    reached = b.reached;
    types = b.types ∙ fits.types;
    vars = λ j e h. var_at j e (same_id id j) refl h;
    fns = λ j ds e h. fn_at j ds e (same_id id j) refl h;
    apart = λ i j p c e hi hj pi pj.
        apart_at i j p c e (same_id id i) (same_id id j) refl refl hi hj (sym (b.scope i) ∙ pi)
          (sym (b.scope j) ∙ pj);
  }
