-- ===== src/Compile/Stmts/Straight.antt =====
-- The code of statements without branches does to the variables what the statements do.
use protosnirk.Prelude.{
  ℕ, ◌+◌, ◌≡◌, ◌≢◌, refl, sym, ◌∙◌, ap, subst, Bool, true, false, Option, none, some, List, [], ◌∷◌,
  ◌++◌, append_assoc, length, length-append, if◌then◌else◌, arith,
}
use protosnirk.Prelude.Maps.{Map, lookup, insert, lookup-insert}
use protosnirk.Prelude.States.{◌>>=◌, ◌>>◌, gets, expect, modify, pure, total}
use protosnirk.Prelude.Returns.{Returns, returns, Returns-after, Returns-weaken}
use protosnirk.Ast.Identifier
use protosnirk.Ast.Identifier.{Identifier}
use protosnirk.Ast.Index.{ScopedId, same_id, same_id_iff, scoped_id_has_eq}
use protosnirk.Ast.Stmt.{Statement, Statements}
use protosnirk.Identify.ConcreteType.{ConcreteType}
use protosnirk.Llvm.Sys.{Ref, TypeKind, LlvmSys}
use protosnirk.Llvm.Values.{c_string, has_nul}
use protosnirk.Llvm.Builder.{build_alloca}
use protosnirk.Llvm.Execution.{Datum, kind, View, IsExecution}
use protosnirk.Compile.State.{ModuleCompiler, Compiles, on_builder, scoped}
use protosnirk.Compile.Exprs.{visit_expression, assign}
use protosnirk.Compile.Exprs.Meaning.{Meaning}
use protosnirk.Compile.Exprs.Facts.{HasVar, Fits, Computed, Fits-Goes, concrete_kind, take}
use protosnirk.Compile.Exprs.Worth.{visit_expression-Computed}
use protosnirk.Compile.Stmts.{visit_stmt, walk_block, declare}
use protosnirk.Compile.Stmts.Bound.{Bound, bound-Fits}
use protosnirk.Compile.Stmts.Meaning.{bind, Step, Steps, declares, assigns, value, done, next}

-- The variables are those of the meaning, and `n` more values stand on `ir_code`.
pub record Ran {W F : Type 0} (x : View W F) (m : Meaning F) (n : ℕ) (s t : ModuleCompiler W)
    : Type 0 where
  pub fits : Fits x m t
  pub left : List Ref
  pub pushed : t.ir_code ≡ left ++ s.ir_code
  pub count : length left ≡ n

-- The state behind a declaration.
declared : {W : Type 0} ⦃l : LlvmSys W⦄ → ModuleCompiler W → Ref → Identifier → ModuleCompiler W
declared ⦃l⦄ s v ident =
    let r = l.build_alloca s.builder s.current_type (Identifier.name ident) s.world in
    record s {
      world = (l.build_store s.builder v r.0 r.1).1;
      scope_manager = insert ident.id r.0 s.scope_manager;
    }

module _ {W F : Type 0} ⦃l : LlvmSys W⦄ {x : View W F} (m : Meaning F)
    (laws : IsExecution l m.arithmetic x) where
  -- The cell of a variable is the one that it has already.
  same_cell :
      (id j : ScopedId) (p : Ref) (r : Map ScopedId Ref)
      → lookup id r ≡ some p
      → (y : Bool) → same_id id j ≡ y
      → lookup j r ≡ (if y then some p else lookup j r)
  same_cell id j p r h true q = ap (λ k. lookup k r) (sym ((same_id_iff id j).0 q)) ∙ h
  same_cell id j p r h false q = refl

  different : (id j : ScopedId) → same_id id j ≡ false → id ≢ j
  different id j h e = cc ((same_id_iff id j).1 e)

  stored-Bound :
      (s : ModuleCompiler W) (v : Ref) (id : ScopedId) (c d : Datum F)
      → Fits x m s
      → m.var id ≡ some c
      → kind c ≡ kind d
      → x.worth s.world v ≡ some d
      → (h : HasVar x s id c)
      → Bound x m id d s (record s { world = (l.build_store s.builder v h.cell s.world).1 })
  stored-Bound s v id c d fits bound same w h =
      let st =
        laws.store_law s.builder v h.cell s.world d (some c) fits.reached w
          (subst (λ k. x.cell s.world h.cell ≡ some (k, some c)) same h.holds) in
      let ne =
        λ (j : ScopedId) (e : Datum F) (b : m.var j ≡ some e) (q : same_id id j ≡ false)
            (k : HasVar x s j e).
          λ (f : k.cell ≡ h.cell).
            different id j q
              (fits.apart id j h.cell c e bound b h.in_scope (k.in_scope ∙ ap some f)) in
      record {
        cell = h.cell;
        type = h.type;
        reached = st.reached fits.reached;
        types = refl;
        typed = h.typed;
        has_kind = h.has_kind ∙ ap some same;
        holds = st.stored;
        scope = λ j. same_cell id j h.cell s.scope_manager h.in_scope (same_id id j) refl;
        apart = ne;
        others = λ j e b q k. st.others k.cell (kind e, some e) (ne j e b q k) k.holds;
      }

  assign-Ran :
      (s : ModuleCompiler W) (ident : Identifier) (c d : Datum F) (visit : Compiles W (Unit {0}))
      → Fits x m s
      → m.var ident.id ≡ some c
      → kind c ≡ kind d
      → Returns (λ _. Computed x s d) (visit s)
      → Returns (λ _. Ran x (bind ident.id d m) 0 s) ((visit >> assign ident) s)
  unfolding assign scoped gets expect pure total on_builder ◌>>=◌ ◌>>◌
  assign-Ran s ident c d visit fits bound same r =
      take (λ _. Ran x (bind ident.id d m) 0 s) visit _ r
        λ v t g i w k.
          let fits_t = Fits-Goes fits g in
          let h = fits_t.vars ident.id c bound in
          rw h.in_scope (
            returns tt _ record {
              fits =
                  bound-Fits m ident.id d t _ fits_t
                    (stored-Bound t v ident.id c d fits_t bound same w h);
              left = [];
              pushed = i;
              count = refl;
            })

  unused_ne :
      (w : W) (p q : Ref) (c : TypeKind × Option (Datum F))
      → x.cell w p ≡ none
      → x.cell w q ≡ some c
      → q ≢ p
  unused_ne w p q c h k f = cc (ap (λ r. x.cell w r) f)

  declared-Bound :
      (s : ModuleCompiler W) (v : Ref) (ident : Identifier) (d : Datum F) (ty : ConcreteType)
      → Fits x m s
      → x.worth s.world v ≡ some d
      → x.kind_of s.current_type ≡ kind d
      → lookup ident.id m.types ≡ some ty
      → concrete_kind ty ≡ some (kind d)
      → Bound x m ident.id d s (declared s v ident)
  unfolding declared
  declared-Bound s v ident d ty fits w k typed has_kind =
      let r = l.build_alloca s.builder s.current_type (Identifier.name ident) s.world in
      let al =
        laws.alloca_law s.builder s.current_type (Identifier.name ident) s.world fits.reached in
      let st =
        laws.store_law s.builder v r.0 r.1 d none (al.keeps.reached fits.reached)
          (al.keeps.worths v d w) (subst (λ j. x.cell r.1 r.0 ≡ some (j, none)) k al.allocated) in
      let ne = λ (j : ScopedId) (e : Datum F) (h : HasVar x s j e) (f : h.cell ≡ r.0).
        unused_ne s.world r.0 h.cell (kind e, some e) al.unused h.holds f in
      record {
        cell = r.0;
        type = ty;
        reached = st.reached (al.keeps.reached fits.reached);
        types = refl;
        typed = rw fits.types typed;
        has_kind = has_kind;
        holds = st.stored;
        scope = λ j. lookup-insert ident.id j r.0 s.scope_manager;
        apart = λ j e b q h. ne j e h;
        others =
            λ j e b q h. st.others h.cell (kind e, some e) (ne j e h) (al.keeps.cells _ _ h.holds);
      }

  declare-Ran :
      (s : ModuleCompiler W) (ident : Identifier) (d : Datum F) (ty : ConcreteType)
      (visit : Compiles W (Unit {0}))
      → Fits x m s
      → has_nul (Identifier.name ident) ≡ false
      → lookup ident.id m.types ≡ some ty
      → concrete_kind ty ≡ some (kind d)
      → Returns (λ _. Computed x s d) (visit s)
      → Returns (λ _. Ran x (bind ident.id d m) 0 s) ((visit >> declare ident) s)
  unfolding declare declared build_alloca c_string gets expect pure total modify on_builder ◌>>=◌
      ◌>>◌
  declare-Ran s ident d ty visit fits clean typed has_kind r =
      take (λ _. Ran x (bind ident.id d m) 0 s) visit _ r
        λ v t g i w k.
          let fits_t = Fits-Goes fits g in
          rw clean (
            returns tt (declared t v ident) record {
              fits =
                  bound-Fits m ident.id d t _ fits_t
                    (declared-Bound t v ident d ty fits_t w k typed has_kind);
              left = [];
              pushed = i;
              count = refl;
            })

arithmetic-Step :
    {F : Type 0} {m o : Meaning F} {st : Statement} {n : ℕ}
    → Step m st n o
    → o.arithmetic ≡ m.arithmetic
unfolding bind
arithmetic-Step (declares c e n t k) = refl
arithmetic-Step (assigns c e b k) = refl
arithmetic-Step (value c e) = refl

module _ {W F : Type 0} ⦃l : LlvmSys W⦄ {x : View W F} where
  Step-Ran :
      {m o : Meaning F} {st : Statement} {n : ℕ}
      → Step m st n o
      → IsExecution l m.arithmetic x
      → (s : ModuleCompiler W) → Fits x m s
      → Returns (λ _. Ran x o n s) (visit_stmt st s)
  unfolding visit_stmt visit_expression
  Step-Ran {m} (declares {ident = ident} {e = e} {d = d} {ty = ty} c h n t k) laws s fits =
      declare-Ran m laws s ident d ty (visit_expression e) fits n t k
        (visit_expression-Computed m laws e s d c fits h)
  Step-Ran {m} (assigns {ident = ident} {e = e} {d = d} {c = b} c h bound k) laws s fits =
      assign-Ran m laws s ident b d (visit_expression e) fits bound k
        (visit_expression-Computed m laws e s d c fits h)
  Step-Ran {m} (value {e = e} {d = d} c h) laws s fits =
      Returns-weaken (λ _. Ran x m 1 s) (visit_expression-Computed m laws e s d c fits h)
        λ _ t r. record {
          fits = Fits-Goes fits r.goes;
          left = r.value ∷ [];
          pushed = r.pushed;
          count = refl;
        }

  Ran-after :
      {m o : Meaning F} (i j : ℕ) {s t : ModuleCompiler W} (u : ModuleCompiler W)
      → Ran x m i s t
      → Ran x o j t u
      → Ran x o (i + j) s u
  Ran-after i j {s} u r q = record {
    fits = q.fits;
    left = q.left ++ r.left;
    pushed =
        q.pushed ∙ ap (λ vs. q.left ++ vs) r.pushed ∙ sym (append_assoc q.left r.left s.ir_code);
    count = length-append q.left r.left ∙ omega (arith, r.count, q.count);
  }

  -- Where a block of declarations, assignments and values runs, the compiler returns on it, from
  -- every state that has the variables and functions of the meaning in front of it. Behind it the
  -- state has those of the meaning behind it: each variable has a cell of its own, with the value
  -- that the block gives it. On `ir_code` every value that stands on its own has been left.
  pub walk_block-Ran :
      {m o : Meaning F} {ss : Statements} {n : ℕ}
      → Steps m ss n o
      → IsExecution l m.arithmetic x
      → (s : ModuleCompiler W) → Fits x m s
      → Returns (λ _. Ran x o n s) (walk_block ss s)
  unfolding walk_block pure ◌>>◌ ◌>>=◌
  walk_block-Ran done laws s fits =
      returns tt s record { fits = fits; left = []; pushed = refl; count = refl }
  walk_block-Ran (next {o = o} {q = q} {i = i} {j = j} h rest) laws s fits =
      Returns-after (λ _. Ran x q (i + j) s) (Step-Ran h laws s fits)
        λ _ t r.
          Returns-weaken (λ _. Ran x q (i + j) s)
            (walk_block-Ran rest (subst (λ b. IsExecution l b x) (sym (arithmetic-Step h)) laws) t
              r.fits)
            λ _ u f. Ran-after i j u r f
