-- ===== src/Identify/Names/Statements/Blocks.antt =====
-- src/identify/names/expr_namer.rs: the visits of blocks return, with the scopes and the id as they
-- were unless an error was added.
use protosnirk.Prelude.{◌≡◌, refl, Bool, true, false, Option, some, [], ◌∷◌}
use protosnirk.Prelude.States.{
  Gives, gives, Gives-after, Gives-weaken, pure, gets, modify, ◌>>=◌, ◌>>◌,
}
use protosnirk.Prelude.Runs.{Runs-pure, Runs-bind, Runs-then}
use protosnirk.Lex.Span.{Span}
use protosnirk.Ast.Index.{ScopedId, pushed, popped}
use protosnirk.Ast.Stmt.{
  Statement, Block, Statements, Conditionals, ElseBlock, expression, return_stmt, declaration,
  do_block, if_block, block, no_stmts, stmt, no_conditionals, conditional, no_else, else_block,
}
use protosnirk.Check.Errors.{new_error, if_without_else, empty_block_expression}
use protosnirk.Identify.OriginManager.{has_source, begin_block, pop_source}
use protosnirk.Identify.Names.State.{ExpressionVarIdentifier, step_id, on_id, on_lvalues}
use protosnirk.Identify.Names.Frame.{Ready, Grows-entered, Grows-pushed}
use protosnirk.Identify.Names.Leaves.{Leaves-Restores, fails}
use protosnirk.Identify.Names.Statements.{
  Visits, default_span, add_source_if, before_last, visit_if, visit_body, visit_stmt,
  visit_conditionals, visit_else, visit_block, visit_valued, walk_block,
}
use protosnirk.Identify.Names.Statements.Runs.{
  frame, Post, BlockPost, post_frame, Sound, entered, Sound-expression, Sound-sources,
  Sound-declaration, Sound-return, takes_source, leaves_scope, unnests,
}

pub Sound-add_source_if : (b : Bool) (id : ScopedId) → Sound (add_source_if b id)
unfolding add_source_if
Sound-add_source_if true id = Sound-sources _
Sound-add_source_if false id = Runs-pure _

Sound-before_last : (ss : Statements) (id : ScopedId) → Sound (before_last ss id)
unfolding before_last
Sound-before_last no_stmts id = Runs-then _ _ (Sound-sources _) (Sound-sources _)
Sound-before_last (stmt s rest) id = Runs-pure _

-- The parts of an if block, and the way back from its id.
visits_parts :
    (conds : Visits Conditionals) (els : Visits ElseBlock)
    (f : Conditionals → ElseBlock → Statement)
    → Sound conds
    → Sound els
    → (s t : ExpressionVarIdentifier) → Ready (frame s)
    → Post (on_id pushed s) t
    → Gives
        (Post s)
        ((conds >>= λ cs. els >>= λ e. modify (on_id popped) >> (step_id >> pure (f cs e))) t)
unfolding ◌>>=◌ ◌>>◌ modify pure
visits_parts conds els f ok_conds ok_els s t r p =
    Gives-after (Post t) (Post s) (ok_conds.at t p.0.ready) λ cs u q.
      Gives-after (Post u) (Post s) (ok_els.at u q.0.ready) λ e v q'.
        unnests (f cs e) s v r
          (post_frame.joins (on_id pushed s) t v p (post_frame.joins t u v q q'))

visits_if :
    (b : Bool) (cs : Conditionals) (e : ElseBlock) (id : ScopedId) (source : Option ScopedId)
    (sp : Span) (conds : Visits Conditionals) (els : Visits ElseBlock)
    → Sound conds
    → Sound els
    → (s : ExpressionVarIdentifier) → Ready (frame s)
    → has_source s.lvalues ≡ b
    → Gives (Post s) (visit_if b cs e id source sp conds els (on_id pushed s))
unfolding visit_if ◌>>=◌ ◌>>◌ modify pure
visits_if true cs no_else id source sp conds els ok_conds ok_els s r h =
    gives _ _ (Grows-pushed (frame s) _ r, fails (new_error (sp ∷ []) if_without_else) [] refl)
visits_if true cs (else_block b) id source sp conds els ok_conds ok_els s r h =
    let (source', e) = takes_source (on_id pushed s) h in
    rw e (
      visits_parts conds els (λ cs' e'. if_block cs' e' id (some source') sp) ok_conds ok_els s
        (on_lvalues (λ m. (pop_source m).1) (on_id pushed s)) r
        (post_frame.stays (on_id pushed s) (Grows-pushed (frame s) s.errors.errors r).ready))
visits_if false cs e id source sp conds els ok_conds ok_els s r h =
    visits_parts conds els (λ cs' e'. if_block cs' e' id source sp) ok_conds ok_els s
      (on_id pushed s) r
      (post_frame.stays (on_id pushed s) (Grows-pushed (frame s) s.errors.errors r).ready)

visits_body :
    (b : Bool) (ss : Statements) (id : ScopedId) (source : Option ScopedId) (sp : Span)
    (valued plain : Visits Statements)
    → Sound valued
    → Sound plain
    → (s : ExpressionVarIdentifier) → Ready (frame s)
    → has_source s.lvalues ≡ b
    → Gives (BlockPost s) (visit_body b ss id source sp valued plain (entered s))
unfolding visit_body ◌>>=◌ ◌>>◌ modify pure
visits_body true no_stmts id source sp valued plain ok_valued ok_plain s r h = gives _ _ (
  Grows-entered (frame s) _ r,
  fails (new_error (default_span ∷ []) empty_block_expression) [] refl,
)
visits_body true (stmt x rest) id source sp valued plain ok_valued ok_plain s r h =
    let (source', e) = takes_source (entered s) h in
    let inside = on_lvalues begin_block (on_lvalues (λ m. (pop_source m).1) (entered s)) in
    rw e (
      Gives-after (Post inside) (BlockPost s)
        (ok_valued.at inside (Grows-entered (frame s) s.errors.errors r).ready)
        λ ss t p. leaves_scope (block ss id (some source') sp) s t r p)
visits_body false ss id source sp valued plain ok_valued ok_plain s r h =
    Gives-after (Post (entered s)) (BlockPost s)
      (ok_plain.at (entered s) (Grows-entered (frame s) s.errors.errors r).ready)
      λ ss' t p. leaves_scope (block ss' id source sp) s t r p

Post-BlockPost : (s t : ExpressionVarIdentifier) → Ready (frame s) → BlockPost s t → Post s t
Post-BlockPost s t r (g, p) = (g, Leaves-Restores (frame s) (frame t) r p)

mutual
  unfolding visit_stmt visit_conditionals visit_else visit_block visit_valued walk_block ◌>>=◌ ◌>>◌
      gets modify

  Sound-stmt : (x : Statement) → Sound (visit_stmt x)
  Sound-stmt (expression e) = Runs-bind _ _ (Sound-expression e) λ e'. Runs-pure _
  Sound-stmt (return_stmt value sp) = Sound-return value sp
  Sound-stmt (declaration m ident decl value sp) = Sound-declaration m ident decl value sp
  Sound-stmt (do_block b sp) = Runs-bind _ _ (Sound-block b) λ b'. Runs-pure _
  Sound-stmt (if_block cs e old_id source sp) = record {
    at = λ s r.
        visits_if (has_source s.lvalues) cs e s.current_id source sp
          (visit_conditionals (has_source s.lvalues) s.current_id cs)
          (visit_else (has_source s.lvalues) s.current_id e)
          (Sound-conditionals (has_source s.lvalues) s.current_id cs)
          (Sound-else (has_source s.lvalues) s.current_id e) s r refl;
  }

  Sound-conditionals :
      (b : Bool) (id : ScopedId) (cs : Conditionals) → Sound (visit_conditionals b id cs)
  Sound-conditionals b id no_conditionals = Runs-pure _
  Sound-conditionals b id (conditional c blk sp rest) = Runs-bind _ _ (Sound-expression c) λ c'.
      Runs-then _ _ (Sound-add_source_if b id) (
        Runs-bind _ _ (Sound-block blk)
          λ blk'. Runs-bind _ _ (Sound-conditionals b id rest) λ rest'. Runs-pure _)

  Sound-else : (b : Bool) (id : ScopedId) (e : ElseBlock) → Sound (visit_else b id e)
  Sound-else b id no_else = Runs-pure _
  Sound-else b id (else_block blk) =
      Runs-then _ _ (Sound-add_source_if b id) (Runs-bind _ _ (Sound-block blk) λ blk'. Runs-pure _)

  pub Sound-block : (b : Block) → Sound (visit_block b)
  Sound-block (block ss old_id source sp) = record {
    at = λ s r.
        Gives-weaken (BlockPost s) (Post s) (λ t p. Post-BlockPost s t r p)
          (visits_body (has_source s.lvalues) ss s.current_id source sp
            (visit_valued s.current_id ss) (walk_block ss) (Sound-valued s.current_id ss)
            (Sound-walk ss) s r refl);
  }

  Sound-valued : (id : ScopedId) (ss : Statements) → Sound (visit_valued id ss)
  Sound-valued id no_stmts = Runs-pure _
  Sound-valued id (stmt x rest) =
      Runs-then _ _ (Sound-before_last rest id) (
        Runs-bind _ _ (Sound-stmt x)
          λ x'. Runs-bind _ _ (Sound-valued id rest) λ rest'. Runs-pure _)

  Sound-walk : (ss : Statements) → Sound (walk_block ss)
  Sound-walk no_stmts = Runs-pure _
  Sound-walk (stmt x rest) =
      Runs-bind _ _ (Sound-stmt x) λ x'. Runs-bind _ _ (Sound-walk rest) λ rest'. Runs-pure _

-- From a state in which there is a scope, the id has an index and every name in scope has its
-- information, the visit of a block returns. The state that it leaves is such a state again, and
-- either an error was added or the scopes are the same and the current id is the next one.
pub visit_block-restores :
    (b : Block) (s : ExpressionVarIdentifier)
    → Ready (frame s)
    → Gives (BlockPost s) (visit_block b s)
unfolding visit_block ◌>>=◌ ◌>>◌ gets modify
visit_block-restores (block ss old_id source sp) s r =
    visits_body (has_source s.lvalues) ss s.current_id source sp (visit_valued s.current_id ss)
      (walk_block ss) (Sound-valued s.current_id ss) (Sound-walk ss) s r refl
