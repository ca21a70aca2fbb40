-- ===== src/Identify/Names/Expressions/Resolve.antt =====
-- src/identify/names/expr_namer.rs: what the visits of expressions amount to, as functions of the
-- scopes alone.
use protosnirk.Prelude.{
  ◌≡◌, refl, sym, ap, ◌∙◌, Bool, true, false, Option, none, some, List, [], ◌∷◌, ◌++◌, append-nil,
  append_assoc, if◌then◌else◌,
}
use protosnirk.Prelude.Maps.{text_has_eq, beq_refl}
use protosnirk.Ast.Index.{ScopedId, is_default, same_id, scoped_id_has_eq}
use protosnirk.Ast.Identifier
use protosnirk.Ast.Identifier.{Identifier, set_id, name}
use protosnirk.Ast.Expression
use protosnirk.Ast.Expression.{
  Expression, CallArguments, literal, variable_ref, binary_op, unary_op, if_expression, fn_call,
  assignment, no_arguments, argument,
}
use protosnirk.Check.Errors.{
  CheckerError, new_error, unknown_assignment, unknown_reference, unknown_function,
}
use protosnirk.Identify.ScopeBuilder.{get}
use protosnirk.Identify.Names.State.{ExpressionVarIdentifier, NameScopeBuilder}
use protosnirk.Identify.Names.Expressions.{
  visit_expression, visit_arguments, visit_var_ref, visit_call, begin_assignment, end_source,
  named_var,
}

-- An identifier with the id that its name has in scope, if it has one.
abbrev pub named_by : Option ScopedId → Identifier → Identifier
named_by none i = i
named_by (some id) i = set_id id i

abbrev pub unknown_name : Option ScopedId → Identifier → List CheckerError
unknown_name none i = new_error (Identifier.span i ∷ []) (unknown_reference (name i)) ∷ []
unknown_name (some id) i = []

abbrev unassignable : Bool → Expression → Identifier → List CheckerError
unassignable true assign i =
    new_error (Expression.span assign ∷ []) (unknown_assignment (name i)) ∷ []
unassignable false assign i = []

abbrev call_arguments : Option ScopedId → CallArguments → CallArguments → CallArguments
call_arguments none args args' = args
call_arguments (some id) args args' = args'

abbrev call_faults :
    Option ScopedId → Expression → Identifier → List CheckerError → List CheckerError
call_faults none call i es = new_error (Expression.span call ∷ []) (unknown_function (name i)) ∷ []
call_faults (some id) call i es = es

unfoldable mutual
  -- An expression with its names resolved in some scopes.
  pub resolve : NameScopeBuilder → Expression → Expression
  resolve b (literal l) = literal l
  resolve b (variable_ref i) = variable_ref (named_by (get (name i) b) i)
  resolve b (binary_op op l r sp) = binary_op op (resolve b l) (resolve b r) sp
  resolve b (unary_op op e sp) = unary_op op (resolve b e) sp
  resolve b (if_expression c t e sp) = if_expression (resolve b c) (resolve b t) (resolve b e) sp
  resolve b (fn_call i args sp) =
      fn_call (named_by (get (name i) b) i)
        (call_arguments (get (name i) b) args (resolve_arguments b args)) sp
  resolve b (assignment i e) = assignment (named_by (get (name i) b) i) (resolve b e)

  pub resolve_arguments : NameScopeBuilder → CallArguments → CallArguments
  resolve_arguments b no_arguments = no_arguments
  resolve_arguments b (argument param e rest) =
      argument param (resolve b e) (resolve_arguments b rest)

unfoldable mutual
  -- The errors for the names of an expression, in the order of the visits.
  pub faults : NameScopeBuilder → Expression → List CheckerError
  faults b (literal l) = []
  faults b (variable_ref i) = unknown_name (get (name i) b) i
  faults b (binary_op op l r sp) = faults b l ++ faults b r
  faults b (unary_op op e sp) = faults b e
  faults b (if_expression c t e sp) = faults b c ++ faults b t ++ faults b e
  faults b (fn_call i args sp) =
      call_faults (get (name i) b) (fn_call i args sp) i (argument_faults b args)
  faults b (assignment i e) =
      unassignable (is_default i.id) (assignment i e) i
      ++ faults b e
      ++ unknown_name (get (name i) b) i

  pub argument_faults : NameScopeBuilder → CallArguments → List CheckerError
  argument_faults b no_arguments = []
  argument_faults b (argument param e rest) = faults b e ++ argument_faults b rest

-- A state with some errors more.
abbrev pub logged : List CheckerError → ExpressionVarIdentifier → ExpressionVarIdentifier
logged es s = record s { errors = record s.errors { errors = s.errors.errors ++ es } }

logged-append :
    (es fs : List CheckerError) (s : ExpressionVarIdentifier)
    → logged fs (logged es s) ≡ logged (es ++ fs) s
logged-append es fs s =
    ap (λ l. record s { errors = record s.errors { errors = l } })
      (append_assoc s.errors.errors es fs)

logged-append3 :
    (es fs gs : List CheckerError) (s : ExpressionVarIdentifier)
    → logged gs (logged fs (logged es s)) ≡ logged (es ++ fs ++ gs) s
logged-append3 es fs gs s = ap (logged gs) (logged-append es fs s) ∙ logged-append (es ++ fs) gs s

logged-nil : (s : ExpressionVarIdentifier) → s ≡ logged [] s
logged-nil s =
    ap (λ l. record s { errors = record s.errors { errors = l } })
      (sym (append-nil s.errors.errors))

named_var-resolve :
    (o : Option ScopedId) (i : Identifier) (s : ExpressionVarIdentifier)
    → named_var o i s ≡ (named_by o i, logged (unknown_name o i) s)
unfolding named_var
named_var-resolve none i s = refl
named_var-resolve (some id) i s = ap (λ t. (set_id id i, t)) (logged-nil s)

visit_var_ref-resolve :
    (i : Identifier) (s : ExpressionVarIdentifier)
    → visit_var_ref i s
      ≡ (named_by (get (name i) s.builder) i, logged (unknown_name (get (name i) s.builder) i) s)
unfolding visit_var_ref
visit_var_ref-resolve i s = named_var-resolve (get (name i) s.builder) i s

-- A state with a source on top.
abbrev sourced : ScopedId → ExpressionVarIdentifier → ExpressionVarIdentifier
sourced id s = record s { lvalues = record { lvalues = some id ∷ s.lvalues.lvalues } }

begin_assignment-logged :
    (i : Identifier) (a : Expression) (s : ExpressionVarIdentifier)
    → begin_assignment i a s ≡ sourced i.id (logged (unassignable (is_default i.id) a i) s)
unfolding begin_assignment
begin_assignment-logged i a s = go (is_default i.id)
  where
    go :
        (d : Bool)
        → sourced i.id (
            if d
            then logged (new_error (Expression.span a ∷ []) (unknown_assignment (name i)) ∷ []) s
            else s)
          ≡ sourced i.id (logged (unassignable d a i) s)
    go true = refl
    go false = ap (sourced i.id) (logged-nil s)

end_source-pushed : (id : ScopedId) (s : ExpressionVarIdentifier) → end_source id (sourced id s) ≡ s
unfolding end_source
end_source-pushed id s = go (same_id id id) (beq_refl id)
  where
    go : (b : Bool) → b ≡ true → (if b then s else sourced id s) ≡ s
    go true e = refl
    go false e = cc

-- The state and the result behind a call.
call-resolve :
    (o : Option ScopedId) (call : Expression) (i : Identifier) (args args' : CallArguments)
    (es : List CheckerError)
    (visit : ExpressionVarIdentifier → CallArguments × ExpressionVarIdentifier)
    (s : ExpressionVarIdentifier)
    → visit s ≡ (args', logged es s)
    → visit_call o call i args visit s
      ≡ ((named_by o i, call_arguments o args args'), logged (call_faults o call i es) s)
unfolding visit_call
call-resolve none call i args args' es visit s e = refl
call-resolve (some id) call i args args' es visit s e = ap (λ r. ((set_id id i, r.0), r.1)) e

mutual
  unfolding visit_expression resolve faults visit_arguments resolve_arguments argument_faults

  resolved :
      (e : Expression) (s : ExpressionVarIdentifier)
      → visit_expression e s ≡ (resolve s.builder e, logged (faults s.builder e) s)
  resolved (literal l) s = ap (λ t. (literal l, t)) (logged-nil s)
  resolved (variable_ref i) s = rw (visit_var_ref-resolve i s)
  resolved (binary_op op l r sp) s = rw (
    resolved l s,
    resolved r (logged (faults s.builder l) s),
    logged-append (faults s.builder l) (faults s.builder r) s,
  )
  resolved (unary_op op e sp) s = rw (resolved e s)
  resolved (if_expression c t e sp) s = rw (
    resolved c s,
    resolved t (logged (faults s.builder c) s),
    logged-append (faults s.builder c) (faults s.builder t) s,
    resolved e (logged (faults s.builder c ++ faults s.builder t) s),
    logged-append (faults s.builder c ++ faults s.builder t) (faults s.builder e) s,
  )
  resolved (fn_call i args sp) s = rw (
      call-resolve (get (name i) s.builder) (fn_call i args sp) i args
        (resolve_arguments s.builder args) (argument_faults s.builder args) (visit_arguments args) s
        (resolved_arguments args s))
  resolved (assignment i e) s =
      rw
        (
          begin_assignment-logged i (assignment i e) s,
          resolved e (sourced i.id (logged (unassignable (is_default i.id) (assignment i e) i) s)),
          end_source-pushed i.id (
              logged (faults s.builder e)
                (logged (unassignable (is_default i.id) (assignment i e) i) s)),
          visit_var_ref-resolve i (
              logged (faults s.builder e)
                (logged (unassignable (is_default i.id) (assignment i e) i) s)),
        )
        (ap (λ t. (assignment (named_by (get (name i) s.builder) i) (resolve s.builder e), t))
          (logged-append3 (unassignable (is_default i.id) (assignment i e) i) (faults s.builder e)
            (unknown_name (get (name i) s.builder) i) s))

  resolved_arguments :
      (args : CallArguments) (s : ExpressionVarIdentifier)
      → visit_arguments args s
        ≡ (resolve_arguments s.builder args, logged (argument_faults s.builder args) s)
  resolved_arguments no_arguments s = ap (λ t. (no_arguments, t)) (logged-nil s)
  resolved_arguments (argument param e rest) s = rw (
    resolved e s,
    resolved_arguments rest (logged (faults s.builder e) s),
    logged-append (faults s.builder e) (argument_faults s.builder rest) s,
  )

-- A visit of an expression returns it with its names resolved in the scopes of the state, and
-- changes nothing of the state but the errors, to which it adds the faults of the names in order:
-- the source that an assignment puts on the stack is off it again.
pub visit_expression-resolve :
    (e : Expression) (s : ExpressionVarIdentifier)
    → visit_expression e s ≡ (resolve s.builder e, logged (faults s.builder e) s)
visit_expression-resolve e s = resolved e s
