-- ===== src/Identify/Names/Statements/Runs.antt =====
-- src/identify/names/expr_namer.rs: the visits of statements and blocks return from every state in
-- which the names in scope are known.
use protosnirk.Prelude.{
  ◌≡◌, refl, sym, subst, Bool, true, false, Option, none, some, [], ◌∷◌, Text, if◌then◌else◌,
}
use protosnirk.Prelude.Maps.{text_has_eq}
use protosnirk.Prelude.States.{
  Gives, gives, attempt, pure, total, gets, modify, expect, ◌>>=◌, ◌>>◌,
}
use protosnirk.Prelude.Runs.{IsFrame, Runs, Runs-pure, Runs-modify, Runs-read, run_rules}
use protosnirk.Prelude.Runs.{IsFrame, Runs, Runs-pure, Runs-modify, Runs-read, run_rules}
use protosnirk.Lex.Span.{Span}
use protosnirk.Ast.Index.{ScopedId, pushed, popped}
use protosnirk.Ast.Identifier.{Identifier, TypeExpression, name}
use protosnirk.Ast.Expression.{Expression}
use protosnirk.Ast.Stmt.{Statement, declaration}
use protosnirk.Check.Errors.{new_error, variable_declared}
use protosnirk.Identify.ScopeBuilder.{new_scope, get, define_local}
use protosnirk.Identify.ScopeBuilder.Known.{get-AllKnown}
use protosnirk.Identify.OriginManager.{
  OriginManager, top_source, has_source, has_top_source, pop_source,
}
use protosnirk.Identify.Names.State.{
  ExpressionVarIdentifier, step_id, on_lvalues, on_builder, on_id,
}
use protosnirk.Identify.Names.Frame.{
  Frame, Ready, Grows, Grows-refl, Grows-trans, Grows-id, Grows-left, Grows-unnested, Grows-errors,
  Grows-local, incremented-returns,
}
use protosnirk.Identify.Names.Leaves.{
  Leaves, Restores, Leaves-trans, Leaves-errors, Restores-left, Leaves-unnested, keeps, fails,
}
use protosnirk.Identify.Names.Expressions.{visit_expression, end_source}
use protosnirk.Identify.Names.Expressions.Resolve.{visit_expression-resolve, faults, resolve}
use protosnirk.Identify.Names.Statements.{
  Visits, visit_declaration, declare, declare_on, redeclared, with_builder, visit_return, leave,
  take_source,
}

abbrev pub frame : ExpressionVarIdentifier → Frame
frame s = record { errors = s.errors.errors; builder = s.builder; id = s.current_id }

-- What a visit of a statement makes of the state.
abbrev pub Post : ExpressionVarIdentifier → ExpressionVarIdentifier → Type 0
Post s t = Grows (frame s) (frame t) × Leaves (frame s) (frame t)

-- What a visit of a block makes of it.
abbrev pub BlockPost : ExpressionVarIdentifier → ExpressionVarIdentifier → Type 0
BlockPost s t = Grows (frame s) (frame t) × Restores (frame s) (frame t)

abbrev pub IsReady : ExpressionVarIdentifier → Type 0
IsReady s = Ready (frame s)

instance abbrev pub post_frame : IsFrame IsReady Post
post_frame = record {
  stays = λ s r. (Grows-refl (frame s) r, keeps refl refl refl);
  joins =
      λ s t u (g, l) (g', l'). (Grows-trans g g', Leaves-trans (frame s) (frame t) (frame u) l l');
  goes_on = λ s t (g, l). g.ready;
}

abbrev pub Sound : {A : Type 0} → Visits A → Type 0
Sound m = Runs IsReady Post m

pub Sound-expression : (e : Expression) → Sound (total (visit_expression e))
unfolding total
Sound-expression e = record {
  at = λ s r. rw (visit_expression-resolve e s) (
      gives (resolve s.builder e) _
        (Grows-errors (frame s) _ r, Leaves-errors (frame s) (faults s.builder e)));
}

pub Sound-step_id : Sound step_id
unfolding attempt
Sound-step_id = record {
  at = λ s r.
      let (id, e, l, d) = incremented-returns s.current_id r.2 in
      rw e (gives tt _ (Grows-id (frame s) id r l, keeps refl refl d));
}

-- What changes the sources only.
pub Sound-sources :
    (f : ExpressionVarIdentifier → OriginManager) → Sound (modify (λ s. record s { lvalues = f s }))
Sound-sources f = Runs-modify _ λ s r. (Grows-refl (frame s) r, keeps refl refl refl)

pub Sound-define :
    (key : Text) (id : ScopedId) (sp : Span)
    → Sound (attempt (λ t. with_builder t (define_local key id sp t.builder)))
unfolding attempt with_builder
Sound-define key id sp = record {
  at = λ s r.
      let (b, e, g, same) = Grows-local (frame s) key id sp r in
      rw e (gives tt _ (g, keeps refl same refl));
}

Sound-declare :
    (m : Bool) (ident : Identifier) (decl : Option TypeExpression) (value : Expression) (sp : Span)
    → Sound (declare m ident decl value sp)
unfolding declare
Sound-declare m ident decl value sp =
    search (run_rules, Sound-expression, Sound-define, Sound-step_id)

redeclares :
    (id : ScopedId) (same : Statement) (ident : Identifier) (sp : Span)
    (s : ExpressionVarIdentifier)
    → Ready (frame s)
    → get (name ident) s.builder ≡ some id
    → Gives (Post s) (redeclared id same ident sp s)
unfolding redeclared ◌>>=◌ ◌>>◌ gets modify pure expect
redeclares id same ident sp s r found =
    let (origin_span, e) = get-AllKnown (name ident) id s.builder r.0 found in
    rw e (
      gives same _ (
        Grows-errors (frame s) _ r,
        fails (new_error (sp ∷ origin_span ∷ []) (variable_declared (name ident))) [] refl,
      ))

pub Sound-declaration :
    (m : Bool) (ident : Identifier) (decl : Option TypeExpression) (value : Expression) (sp : Span)
    → Sound (visit_declaration m ident decl value sp)
unfolding visit_declaration declare_on
Sound-declaration m ident decl value sp =
    Runs-read _ _ λ s r. go s r (get (name ident) s.builder) refl
  where
    go :
        (s : ExpressionVarIdentifier)
        → Ready (frame s)
        → (o : Option ScopedId) → get (name ident) s.builder ≡ o
        → Gives (Post s) (declare_on o m ident decl value sp s)
    go s r none e = (Sound-declare m ident decl value sp).at s r
    go s r (some id) e = redeclares id (declaration m ident decl value sp) ident sp s r e

frame-end_source : (id : ScopedId) (s : ExpressionVarIdentifier) → frame (end_source id s) ≡ frame s
unfolding end_source
frame-end_source id s = go (has_top_source id s.lvalues)
  where
    go : (b : Bool) → frame (if b then on_lvalues (λ m. (pop_source m).1) s else s) ≡ frame s
    go true = refl
    go false = refl

Sound-end_source : Sound (modify (λ s. end_source s.current_fn_id s))
Sound-end_source = Runs-modify _ λ s r.
    subst (λ f. Grows (frame s) f × Leaves (frame s) f) (sym (frame-end_source s.current_fn_id s))
      (Grows-refl (frame s) r, keeps refl refl refl)

pub Sound-return : (value : Option Expression) (sp : Span) → Sound (visit_return value sp)
unfolding visit_return
Sound-return none sp = Runs-pure _
Sound-return (some e) sp = search (run_rules, Sound-expression, Sound-sources, Sound-end_source)

-- Blocks and conditionals.
pub takes_source :
    (s : ExpressionVarIdentifier)
    → has_source s.lvalues ≡ true
    → (id : ScopedId) × (take_source s ≡ some (id, on_lvalues (λ m. (pop_source m).1) s))
unfolding take_source ◌>>=◌ ◌>>◌ gets modify expect pure
takes_source s h = go (top_source s.lvalues) refl h
  where
    go :
        (o : Option ScopedId)
        → top_source s.lvalues ≡ o
        → elim o [ none ↦ false | some x ↦ true ] ≡ true
        → (id : ScopedId) × (take_source s ≡ some (id, on_lvalues (λ m. (pop_source m).1) s))
    go none e h = cc
    go (some id) e h = (id, rw e refl)

abbrev pub entered : ExpressionVarIdentifier → ExpressionVarIdentifier
entered s = on_builder new_scope (on_id pushed s)

pub leaves_scope :
    {B : Type 0} (x : B) (s t : ExpressionVarIdentifier)
    → Ready (frame s)
    → Post (entered s) t
    → Gives (BlockPost s) ((leave >> pure x) t)
unfolding attempt ◌>>=◌ ◌>>◌ modify pure
leaves_scope x s t r (g, l) =
    let (id, e, grown) = Grows-left (frame s) (frame t) r g in
    rw e (gives x _ (grown, Restores-left (frame s) (frame t) id l e))

pub unnests :
    {B : Type 0} (x : B) (s t : ExpressionVarIdentifier)
    → Ready (frame s)
    → Post (on_id pushed s) t
    → Gives (Post s) ((modify (on_id popped) >> step_id >> pure x) t)
unfolding attempt ◌>>=◌ ◌>>◌ modify pure
unnests x s t r (g, l) =
    let (id, e, grown) = Grows-unnested (frame s) (frame t) r g in
    rw e (gives x _ (grown, Leaves-unnested (frame s) (frame t) id r.2 l e))
