-- ===== src/Check/Concretifier.antt =====
-- src/check/types/type_concretifier.rs: `TypeConcretifier`.
use protosnirk.Prelude.{ℕ, Bool, true, false, Option, none, some, List, [], ◌∷◌, ◌⊎◌, inl, inr}
use protosnirk.Prelude.Maps.{Map, lookup, insert}
use protosnirk.Prelude.States.{Action, pure, ◌>>◌}
use protosnirk.Lex.Span.{Span}
use protosnirk.Ast.Index.{ScopedId, scoped_id_has_eq}
use protosnirk.Ast.Identifier
use protosnirk.Ast.Identifier.{Identifier, TypeExpression, name}
use protosnirk.Ast.Expression
use protosnirk.Ast.Expression.{
  Expression, CallArguments, literal, variable_ref, binary_op, unary_op, if_expression, fn_call,
  assignment, no_arguments, argument,
}
use protosnirk.Ast.Stmt.{
  Statement, Block, Statements, Conditionals, ElseBlock, expression, return_stmt, declaration,
  do_block, if_block, block, no_stmts, stmt, no_conditionals, conditional, no_else, else_block,
}
use protosnirk.Ast.Item.{
  BlockFnDeclaration, Typedef, Item, SourceUnit, block_fn_declaration, typedef,
}
use protosnirk.Check.Errors.{
  ErrorCollector, Format, new_error, add_error, conflicting_types, no_types, context_fn,
  context_param, context_typedef, context_block, context_block_source, context_definition,
  context_variable, context_call, context_assignment,
}
use protosnirk.Identify.ConcreteType.{ConcreteType}
use protosnirk.Identify.Petgraph.{Petgraph}
use protosnirk.Identify.TypeScope.{TypeScopeBuilder, get_type}
use protosnirk.Identify.TypeGraph.{TypeGraph, TypeNode, InferenceSource, infer_type_of_var}

-- `TypeMapping`
abbrev pub TypeMapping : Type 0
TypeMapping = Map ScopedId ConcreteType

pub record TypeConcretifier (G : Type 0) : Type 0 where
  pub errors : ErrorCollector
  pub graph : TypeGraph G
  pub builder : TypeScopeBuilder
  pub results : TypeMapping

abbrev pub Concretes : Type 0 → Type 0 → Type 0
Concretes G A = Action (TypeConcretifier G) A

-- The format of the errors for a type that cannot be inferred.
abbrev pub inference_error : List ScopedId → Format → Format
inference_error [] context = no_types context
inference_error (id ∷ ids) context = conflicting_types context (id ∷ ids)

module _ {G : Type 0} where
  -- `TypeConcretifier::new`
  abbrev pub new : TypeScopeBuilder → ErrorCollector → TypeGraph G → TypeConcretifier G
  new builder errors graph = record {
    builder = builder;
    errors = errors;
    graph = graph;
    results = [];
  }

  -- The answer of the graph as the outcome of `infer_var`.
  learn : ScopedId → Option ConcreteType → TypeConcretifier G → Bool × TypeConcretifier G
  learn id none s = (false, s)
  learn id (some ty) s = (true, record s { results = insert id ty s.results })

  unfoldable pub conclude :
      ScopedId
      → Span
      → Format
      → (ℕ × ScopedId) ⊎ List ScopedId
      → TypeConcretifier G
      → Bool × TypeConcretifier G
  unfolding learn
  conclude id sp context (inl (ix, ty)) s = learn id (get_type ty s.builder) s
  conclude id sp context (inr possibles) s = (
    false,
    record s {
      errors = add_error (new_error (sp ∷ []) (inference_error possibles context)) s.errors;
    },
  )

  on_answer :
      ScopedId
      → Span
      → Format
      → TypeConcretifier G
      → Option (((ℕ × ScopedId) ⊎ List ScopedId) × TypeGraph G)
      → Option (Bool × TypeConcretifier G)
  on_answer id sp context s none = none
  on_answer id sp context s (some (answer, g)) =
      some (conclude id sp context answer (record s { graph = g }))

module _ {G : Type 0} ⦃p : Petgraph G TypeNode InferenceSource⦄ where
  infer_on : Option ConcreteType → ScopedId → Span → Format → Concretes G Bool
  unfolding on_answer
  infer_on (some known) id sp context s = some (true, s)
  infer_on none id sp context s = on_answer id sp context s (infer_type_of_var id s.graph)

  unfoldable pub infer_var : ScopedId → Span → Format → Concretes G Bool
  unfolding infer_on
  infer_var id sp context s = infer_on (lookup id s.results) id sp context s

  unfoldable mutual
    -- `visit_expression`, with the visitor of each kind of expression.
    pub visit_expression : Expression → Concretes G (Unit {0})
    visit_expression (literal l) = pure tt
    visit_expression (variable_ref ident) = do
      infer_var ident.id (Identifier.span ident) (context_variable (name ident))
      pure tt
    visit_expression (binary_op op l r sp) = do visit_expression l; visit_expression r
    visit_expression (unary_op op e sp) = visit_expression e
    visit_expression (if_expression c t e sp) = do
      visit_expression c
      visit_expression t
      visit_expression e
    visit_expression (fn_call ident args sp) = do
      infer_var ident.id sp (context_call (name ident))
      visit_arguments args
    visit_expression (assignment ident e) = do
      visit_expression e
      infer_var ident.id (Expression.span (assignment ident e)) (context_assignment (name ident))
      pure tt

    pub visit_arguments : CallArguments → Concretes G (Unit {0})
    visit_arguments no_arguments = pure tt
    visit_arguments (argument param e rest) = do visit_expression e; visit_arguments rest

  -- `walk_return`
  abbrev pub visit_return : Option Expression → Concretes G (Unit {0})
  visit_return none = pure tt
  visit_return (some e) = visit_expression e

  -- The start of `visit_block`.
  unfoldable pub infer_block : ScopedId → Option ScopedId → Span → Concretes G (Unit {0})
  infer_block id none sp = pure tt
  infer_block id (some source) sp = do
    infer_var source sp (context_block_source id)
    infer_var id sp (context_block id)
    pure tt

  unfoldable mutual
    -- `visit_stmt`
    pub visit_stmt : Statement → Concretes G (Unit {0})
    visit_stmt (expression e) = visit_expression e
    visit_stmt (return_stmt value sp) = visit_return value
    visit_stmt (declaration m ident decl value sp) = do
      visit_expression value
      infer_var ident.id sp (context_definition (name ident))
      pure tt
    visit_stmt (do_block b sp) = visit_block b
    visit_stmt (if_block cs e id source sp) = do walk_conditionals cs; walk_else e

    -- `walk_if_block`
    pub walk_conditionals : Conditionals → Concretes G (Unit {0})
    walk_conditionals no_conditionals = pure tt
    walk_conditionals (conditional c b sp rest) = do
      visit_expression c
      visit_block b
      walk_conditionals rest

    pub walk_else : ElseBlock → Concretes G (Unit {0})
    walk_else no_else = pure tt
    walk_else (else_block b) = visit_block b

    pub visit_block : Block → Concretes G (Unit {0})
    visit_block (block ss id source sp) = do infer_block id source sp; walk_block ss

    pub walk_block : Statements → Concretes G (Unit {0})
    walk_block no_stmts = pure tt
    walk_block (stmt s rest) = do visit_stmt s; walk_block rest

  -- The loop over the parameters.
  unfoldable pub infer_params :
      BlockFnDeclaration → List (Identifier × TypeExpression) → Concretes G (Unit {0})
  infer_params f [] = pure tt
  infer_params f ((param, ty) ∷ rest) = do
    infer_var param.id (Identifier.span param) (context_param (name f.ident) (name param))
    infer_params f rest

  unfoldable pub visit_block_fn_decl : BlockFnDeclaration → Concretes G (Unit {0})
  visit_block_fn_decl f = do
    infer_var f.ident.id f.span (context_fn (name f.ident))
    infer_params f f.params
    visit_block f.block

  unfoldable pub visit_typedef : Typedef → Concretes G (Unit {0})
  visit_typedef t = do
    infer_var t.alias_ident.id t.span (context_typedef (name t.alias_ident))
    pure tt

  -- `visit_item`
  unfoldable pub visit_item : Item → Concretes G (Unit {0})
  visit_item (block_fn_declaration f) = visit_block_fn_decl f
  visit_item (typedef t) = visit_typedef t

  -- `walk_unit`
  unfoldable pub walk_unit : List Item → Concretes G (Unit {0})
  walk_unit [] = pure tt
  walk_unit (i ∷ rest) = do visit_item i; walk_unit rest

  abbrev pub visit_unit : SourceUnit → Concretes G (Unit {0})
  visit_unit u = walk_unit u.items
