-- ===== src/Identify/Names/Items/Runs.antt =====
-- src/identify/names/item_namer.rs: the pass over the items returns.
use protosnirk.Prelude.{
  ◌+◌, ◌≤◌, ◌≡◌, refl, Bool, true, false, Option, none, some, List, [], ◌∷◌, length, arith, Text,
}
use protosnirk.Prelude.Maps.{lookup, text_has_eq}
use protosnirk.Prelude.States.{
  Action, Gives, gives, Gives-after, pure, gets, modify, expect, attempt, ◌>>=◌, ◌>>◌,
}
use protosnirk.Prelude.Runs.{
  IsFrame, Runs, Runs-pure, Runs-modify, Runs-bind, Runs-then, Runs-read, Runs-gets, run_rules,
}
use protosnirk.Lex.Span.{Span}
use protosnirk.Ast.Index.{ScopedId, pushed, popped}
use protosnirk.Ast.Identifier.{Identifier, TypeExpression, name, set_id}
use protosnirk.Ast.Item.{
  BlockFnDeclaration, Typedef, Item, SourceUnit, block_fn_declaration, typedef,
}
use protosnirk.Check.Errors.{Format}
use protosnirk.Identify.ScopeBuilder.{new_scope, get}
use protosnirk.Identify.ScopeBuilder.Known.{AllKnown, get-AllKnown}
use protosnirk.Identify.Names.Frame.{
  Frame, Ready, Grows, Grows-refl, Grows-trans, Grows-id, Grows-errors, Grows-local, Grows-global,
  Grows-pushed, Ready-pop, length-pop, length-pushed, length-popped, incremented-returns,
}
use protosnirk.Identify.Names.Items.{
  ItemVarIdentifier, Names, Params, complain, step_id, with_id, define_here, define_outside,
  with_builder, on_id, on_builder, name_param, repeated_param, param_on, params_on, name_params,
  close_params, name_fn, fn_repeated, fn_on, visit_block_fn_decl, name_typedef, typedef_on,
  visit_typedef, visit_item, walk_unit, visit_unit,
}

abbrev pub frame : ItemVarIdentifier → Frame
frame s = record { errors = s.errors.errors; builder = s.builder; id = s.current_id }

abbrev pub IsReady : ItemVarIdentifier → Type 0
IsReady s = Ready (frame s)

abbrev Post : ItemVarIdentifier → ItemVarIdentifier → Type 0
Post s t = Grows (frame s) (frame t)

instance abbrev post_frame : IsFrame IsReady Post
post_frame = record {
  stays = λ s r. Grows-refl (frame s) r;
  joins = λ s t u g h. Grows-trans g h;
  goes_on = λ s t g. g.ready;
}

abbrev Sound {ℓ} : {A : Type ℓ} → Action ItemVarIdentifier A → Type ℓ
Sound m = Runs IsReady Post m

Sound-complain : (spans : List Span) (text : Format) → Sound (modify (complain spans text))
Sound-complain spans text = Runs-modify _ λ s r. Grows-errors (frame s) _ r

Sound-step_id : Sound step_id
unfolding step_id attempt with_id
Sound-step_id = record {
  at = λ s r.
      let (id, e, l, d) = incremented-returns s.current_id r.2 in
      rw e (gives tt _ (Grows-id (frame s) id r l));
}

Sound-define_here : (key : Text) (sp : Span) → Sound (define_here key sp)
unfolding define_here attempt with_builder
Sound-define_here key sp = record {
  at = λ s r.
      let (b, e, g, same) = Grows-local (frame s) key s.current_id sp r in rw e (gives tt _ g);
}

Sound-define_outside : (key : Text) (sp : Span) → Sound (define_outside key sp)
unfolding define_outside attempt with_builder
Sound-define_outside key sp = record {
  at = λ s r. let (b, e, g) = Grows-global (frame s) key s.current_id sp r in rw e (gives tt _ g);
}

ruleset item_rules =
    (run_rules, Sound-complain, Sound-step_id, Sound-define_here, Sound-define_outside)

Sound-name_param : (f : BlockFnDeclaration) (param : Identifier) → Sound (name_param f param)
unfolding name_param
Sound-name_param f param = search item_rules

Sound-param_on :
    (o : Option ScopedId) (f : BlockFnDeclaration) (param : Identifier) → Sound (param_on o f param)
unfolding param_on repeated_param
Sound-param_on none f param = search (item_rules, Sound-name_param)
Sound-param_on (some id) f param = search item_rules

Sound-params_on :
    (fine : Bool) (param : Identifier × TypeExpression) (rest : Params)
    (visit : Names (Bool × Params))
    → Sound visit
    → Sound (params_on fine param rest visit)
unfolding params_on
Sound-params_on false param rest visit ok = Runs-pure _
Sound-params_on true param rest visit ok = Runs-bind _ _ ok λ r. Runs-pure _

Sound-name_params : (f : BlockFnDeclaration) (ps : Params) → Sound (name_params f ps)
unfolding name_params
Sound-name_params f [] = Runs-pure _
Sound-name_params f ((param, ty) ∷ rest) = Runs-bind _ _ (Runs-gets _) λ found.
    Runs-bind _ _ (Sound-param_on found f param)
      λ r. Sound-params_on r.0 (r.1, ty) rest (name_params f rest) (Sound-name_params f rest)

-- The way out of the scope of the parameters.
closes :
    (all : Bool) (s t : ItemVarIdentifier)
    → Ready (frame s)
    → Ready (frame t)
    → length s.builder.scopes + 1 ≤ length t.builder.scopes
    → length s.current_id.indices + 1 ≤ length t.current_id.indices
    → Gives (Post s) (close_params all t)
unfolding close_params ◌>>=◌ ◌>>◌ modify pure step_id attempt with_id
closes false s t r r' d l =
    gives tt t (record { ready = r'; deeper = omega (arith, d); longer = omega (arith, l) })
closes true s t r r' d l =
    let (id, e, k, q) =
      incremented-returns (popped t.current_id)
        (omega (arith, l, r.2, length-popped t.current_id)) in
    rw e (
      gives tt _ record {
        ready =
            Ready-pop (frame t) id r' (omega (arith, d, r.1))
              (omega (arith, k, l, r.2, length-popped t.current_id));
        deeper = omega (arith, d, length-pop t.builder);
        longer = omega (arith, k, l, length-popped t.current_id);
      })

-- The visit of the parameters, from the scope that it opens to the one that it goes back to.
opened :
    (f : BlockFnDeclaration) (id : ScopedId) (s : ItemVarIdentifier)
    → Ready (frame s)
    → Gives (Post s) (
        (modify (on_id pushed)
            >> (step_id
                >> (modify (on_builder new_scope)
                    >> (name_params f f.params >>= λ r.
                        close_params r.0
                        >> pure (record f { ident = set_id id f.ident; params = r.1 })))))
          s)
unfolding ◌>>=◌ ◌>>◌ modify pure lookup
opened f id s r =
    let g = Grows-pushed (frame s) s.errors.errors r in
    Gives-after (Post (on_id pushed s)) (Post s) (Sound-step_id.at (on_id pushed s) g.ready)
      λ _ t p.
        let inside = on_builder new_scope t in
        Gives-after (Post inside) (Post s)
          ((Sound-name_params f f.params).at inside
            ((λ key id' found. cc, p.ready.0), omega arith, p.ready.2))
          λ all v q.
            Gives-after (Post s) (Post s)
              (closes all.0 s v r q.ready (omega (arith, p.deeper, q.deeper))
                (omega (arith, p.longer, q.longer, length-pushed s.current_id)))
              λ _ w k. gives _ w k

Sound-name_fn : (f : BlockFnDeclaration) → Sound (name_fn f)
unfolding name_fn
Sound-name_fn f =
    Runs-bind _ _ (Runs-gets _)
      λ id. Runs-then _ _ (Sound-define_here (name f.ident) f.span) (record { at = opened f id })

Sound-fn_on :
    (o : Option ScopedId) (f : BlockFnDeclaration) (s : ItemVarIdentifier)
    → Ready (frame s)
    → get (name f.ident) s.builder ≡ o
    → Gives (Post s) (fn_on o f s)
unfolding fn_on fn_repeated ◌>>=◌ ◌>>◌ gets modify pure expect
Sound-fn_on none f s r e = (Sound-name_fn f).at s r
Sound-fn_on (some id) f s r e =
    let (sp, known) = get-AllKnown (name f.ident) id s.builder r.0 e in
    rw known (gives f _ (Grows-errors (frame s) _ r))

Sound-fn : (f : BlockFnDeclaration) → Sound (visit_block_fn_decl f)
unfolding visit_block_fn_decl
Sound-fn f = Runs-read _ _ λ s r. Sound-fn_on (get (name f.ident) s.builder) f s r refl

Sound-name_typedef : (t : Typedef) → Sound (name_typedef t)
unfolding name_typedef
Sound-name_typedef t = search item_rules

Sound-typedef_on : (o : Option ScopedId) (t : Typedef) → Sound (typedef_on o t)
unfolding typedef_on
Sound-typedef_on none t = Sound-name_typedef t
Sound-typedef_on (some id) t = search item_rules

Sound-item : (i : Item) → Sound (visit_item i)
unfolding visit_item visit_typedef
Sound-item (block_fn_declaration f) = Runs-bind _ _ (Sound-fn f) λ f'. Runs-pure _
Sound-item (typedef t) =
    Runs-bind _ _ (Runs-bind _ _ (Runs-gets _) λ o. Sound-typedef_on o t) λ t'. Runs-pure _

Sound-walk_unit : (is : List Item) → Sound (walk_unit is)
unfolding walk_unit
Sound-walk_unit [] = Runs-pure _
Sound-walk_unit (i ∷ rest) =
    Runs-bind _ _ (Sound-item i) λ i'. Runs-bind _ _ (Sound-walk_unit rest) λ rest'. Runs-pure _

-- From a state in which the current id has an index and every name in scope has its information,
-- the pass over the items of a unit returns, on every unit. In the state that it leaves there is a
-- scope, the id has an index and every name in scope has its information, so that the pass over the
-- expressions can start from it.
pub name_items-returns :
    (u : SourceUnit) (s : ItemVarIdentifier)
    → AllKnown s.builder.defined s.builder.scopes
    → 1 ≤ length s.current_id.indices
    → Gives IsReady (visit_unit u s)
unfolding visit_unit ◌>>=◌ ◌>>◌ modify pure lookup
name_items-returns u s known long =
    let inside = on_builder new_scope s in
    Gives-after (Post inside) IsReady
      ((Sound-walk_unit u.items).at inside ((λ key id found. cc, known), omega arith, long))
      λ items t p.
        Gives-after (Post t) IsReady (Sound-step_id.at t p.ready) λ _ v q. gives _ v q.ready
