-- ===== src/Identify/Names/Statements/Units.antt =====
-- src/identify/names/expr_namer.rs: the visit of a unit returns.
use protosnirk.Prelude.{◌+◌, ◌≤◌, Bool, true, false, List, [], ◌∷◌, length, arith}
use protosnirk.Prelude.States.{Gives, gives, Gives-after, pure, modify, ◌>>=◌, ◌>>◌}
use protosnirk.Prelude.Maps.{lookup}
use protosnirk.Prelude.Runs.{IsFrame, Runs, Runs-pure, Runs-bind, Runs-then, Runs-if, Runs-weaken}
use protosnirk.Ast.Index.{pushed, is_default}
use protosnirk.Ast.Identifier
use protosnirk.Ast.Identifier.{Identifier, TypeExpression, name}
use protosnirk.Ast.Item.{BlockFnDeclaration, Item, SourceUnit, block_fn_declaration, typedef}
use protosnirk.Identify.ScopeBuilder.{new_scope, pop}
use protosnirk.Identify.Names.State.{ExpressionVarIdentifier, on_builder}
use protosnirk.Identify.Names.Frame.{Ready, Ready-pop, length-pop, length-pushed}
use protosnirk.Identify.Names.Statements.{
  Visits, define_params, fn_block, identified_fn, visit_block_fn_decl, visit_item, walk_unit,
  visit_unit,
}
use protosnirk.Identify.Names.Statements.Runs.{
  frame, Post, IsReady, post_frame, Sound, Sound-define, Sound-step_id,
}
use protosnirk.Identify.Names.Statements.Blocks.{Sound-block, Sound-add_source_if}

-- What a visit of an item makes of the state: it leaves no fewer scopes.
abbrev pub Deep : ExpressionVarIdentifier → ExpressionVarIdentifier → Type 0
Deep s t = Ready (frame t) × (length s.builder.scopes ≤ length t.builder.scopes)

instance abbrev deep_frame : IsFrame IsReady Deep
deep_frame = record {
  stays = λ s r. (r, omega arith);
  joins = λ s t u (r, d) (r', d'). (r', omega (arith, d, d'));
  goes_on = λ s t (r, d). r;
}

abbrev Safe : {A : Type 0} → Visits A → Type 0
Safe m = Runs IsReady Deep m

Safe-Sound : {A : Type 0} (m : Visits A) → Sound m → Safe m
Safe-Sound m = Runs-weaken Post Deep m λ s t (g, l). (g.ready, g.deeper)

Safe-define_params : (ps : List (Identifier × TypeExpression)) → Safe (define_params ps)
unfolding define_params
Safe-define_params [] = Runs-pure _
Safe-define_params ((param, ty) ∷ rest) = Runs-if (is_default param.id) _ _ (Runs-pure _) (
    Runs-then _ _ (Safe-Sound _ (Sound-define (name param) param.id (Identifier.span param)))
      (Safe-define_params rest))

-- The body of a function, in the scope of its parameters.
fn_body :
    (all : Bool) (f : BlockFnDeclaration) (s t : ExpressionVarIdentifier)
    → Ready (frame t)
    → 1 ≤ length s.builder.scopes
    → length s.builder.scopes + 1 ≤ length t.builder.scopes
    → Gives (Deep s) (fn_block all f t)
unfolding fn_block ◌>>=◌ ◌>>◌ modify pure
fn_body false f s t r h d = gives f t (r, omega (arith, d))
fn_body true f s t r h d =
    Gives-after (Deep t) (Deep s)
      ((Safe-Sound _ (Sound-add_source_if f.explicit_ret_ty f.ident.id)).at t r)
      λ _ u p.
        let inside = record u { current_fn_id = f.ident.id } in
        Gives-after (Deep inside) (Deep s) ((Safe-Sound _ (Sound-block f.block)).at inside p.0)
          λ b v q. gives _ _ (
            Ready-pop (frame v) v.current_id q.0 (omega (arith, h, d, p.1, q.1)) q.0.2,
            omega (arith, d, p.1, q.1, length-pop v.builder),
          )

Safe-identified_fn : (f : BlockFnDeclaration) → Safe (identified_fn f)
unfolding identified_fn ◌>>=◌ ◌>>◌ modify lookup
Safe-identified_fn f = record {
  at = λ s (known, deep, long).
      let inside = record s { current_id = pushed f.ident.id; builder = new_scope s.builder } in
      Gives-after (Deep inside) (Deep s)
        ((Safe-define_params f.params).at inside
          ((λ key id found. cc, known), omega arith, omega (arith, length-pushed f.ident.id)))
        λ all t p. fn_body all f s t p.0 deep (omega (arith, p.1));
}

Safe-item : (i : Item) → Safe (visit_item i)
unfolding visit_item visit_block_fn_decl
Safe-item (block_fn_declaration f) =
    Runs-bind _ _ (Runs-if (is_default f.ident.id) _ _ (Runs-pure _) (Safe-identified_fn f))
      λ g. Runs-pure _
Safe-item (typedef t) = Runs-pure _

Safe-walk_unit : (is : List Item) → Safe (walk_unit is)
unfolding walk_unit
Safe-walk_unit [] = Runs-pure _
Safe-walk_unit (i ∷ rest) =
    Runs-bind _ _ (Safe-item i) λ i'. Runs-bind _ _ (Safe-walk_unit rest) λ rest'. Runs-pure _

-- From a state in which there is a scope, the id has an index and every name in scope has its
-- information, the visit of a unit returns, on every unit, and the state that it leaves is such a
-- state again: none of the panics of the pass is reached.
pub name_exprs-returns :
    (u : SourceUnit) (s : ExpressionVarIdentifier)
    → Ready (frame s)
    → Gives IsReady (visit_unit u s)
unfolding visit_unit ◌>>=◌ ◌>>◌ modify pure lookup
name_exprs-returns u s (known, deep, long) =
    let inside = on_builder new_scope s in
    Gives-after (Deep inside) IsReady
      ((Safe-walk_unit u.items).at inside ((λ key id found. cc, known), omega arith, long))
      λ items t p.
        let closed = on_builder pop t in
        Gives-after (Post closed) IsReady
          (Sound-step_id.at closed
            (Ready-pop (frame t) t.current_id p.0 (omega (arith, deep, p.1)) p.0.2))
          λ _ v q. gives _ v q.0.ready
