-- ===== src/QueryAgent/Safety.antt =====
-- What the execute node finds in the state: a query that has passed the read-only check and the lint.
use po_c_sqlagent.Base.{
  String, Bool, true, false, ◌≡◌, refl, Option, none, some, List, [], ◌∷◌, ok, err, Bool-cases, inl,
  inr, if◌then◌else◌, subst, some-injective,
}
use po_c_sqlagent.Text.{join}
use po_c_sqlagent.Python.{Value, value_error, Py}
use po_c_sqlagent.Database.{
  validate_read_only, IsReadOnly, validate_read_only-IsReadOnly, Says, validate_read_only-Says,
  append_not_empty,
}
use po_c_sqlagent.QueryAgent.State.{State, Services}
use po_c_sqlagent.QueryAgent.Nodes.{
  has_error, lint, linted, checked, check_sql, validator, explained, explainer, with_sql,
}
use po_c_sqlagent.QueryAgent.Graph.{
  Node, at_router, at_loader, at_telemetry, at_planner, at_sql_generator, at_validator,
  at_explain_gate, at_react_repair, at_execute, at_invariant_check, at_critic, at_optimizer,
  at_persist, run_node, next_node, start,
}

module _ (sv : Services) where
  -- The nodes that a run for a question may come to, with the state that it has there.
  pub data Reached (question : String) : Node → State → Type 0 where
    begun : Reached question at_router (start question)
    moved :
        {n m : Node} {s s' : State}
        → Reached question n s
        → run_node sv n s ≡ ok s'
        → next_node n s' ≡ some m
        → Reached question m s'

  -- The state's query is read only, without a lint problem, and no error is noted.
  pub record IsChecked (s : State) : Type 0 where
    pub no_error : has_error s ≡ false
    pub query : String
    pub query_is : s.sql ≡ some query
    pub read_only : IsReadOnly sv.format_sql sv.statements [] query
    pub no_problem : lint sv query ≡ []

  abbrev Guarded : Node → State → Type 0
  Guarded at_explain_gate s = IsChecked s
  Guarded at_execute s = IsChecked s
  Guarded _ s = Unit

  -- What validation leaves: an error, or a checked query.
  abbrev Validated : Py State → Type 0
  Validated (ok s) = has_error s ≡ false → IsChecked s
  Validated (err e) = Unit

  linted-Validated :
      (s : State) (q : String) (ps : List String)
      → IsReadOnly sv.format_sql sv.statements [] q
      → lint sv q ≡ ps
      → Validated (ok (linted sv s q ps))
  unfolding linted
  linted-Validated s q [] safe clean good = record {
    no_error = good;
    query = q;
    query_is = refl;
    read_only = safe;
    no_problem = clean;
  }
  linted-Validated s q (p ∷ ps) safe clean good =
      absurd (cc (append_not_empty "l" "int failed: " (join "; " (p ∷ ps)), good))

  checked-Validated :
      (s : State) (r : Py String)
      → Says r
      → ((q : String) → r ≡ ok q → IsReadOnly sv.format_sql sv.statements [] q)
      → Validated (checked sv s r)
  unfolding checked
  checked-Validated s (ok q) says safe = linted-Validated s q (lint sv q) (safe q refl) refl
  checked-Validated s (err (value_error m)) says safe = λ good. absurd (cc (says, good))
  checked-Validated s (err e) says safe = tt

  check-Validated : (s : State) (o : Option String) → Validated (check_sql sv s o)
  unfolding check_sql
  check-Validated s none = tt
  check-Validated s (some sql) =
      checked-Validated s (validate_read_only sv.format_sql sv.statements [] sql)
        (validate_read_only-Says sv.format_sql sv.statements [] sql)
        (λ q e. (validate_read_only-IsReadOnly sv.format_sql sv.statements [] sql q e).1)

  validator-Validated : (s : State) → Validated (validator sv s)
  unfolding validator
  validator-Validated s = elim (Bool-cases (has_error s)) [
    | inl bad ↦ rw bad (λ good. absurd (cc (bad, good)))
    | inr good ↦ rw good (check-Validated s s.sql)
  ]

  explained-Validated : (s : State) (r : Py Value) → IsChecked s → Validated (ok (explained sv s r))
  unfolding explained
  explained-Validated s (ok v) c good = record {
    no_error = good;
    query = c.query;
    query_is = c.query_is;
    read_only = c.read_only;
    no_problem = c.no_problem;
  }
  explained-Validated s (err e) c good =
      absurd (cc (append_not_empty "E" "XPLAIN failed: " (sv.str_exc e), good))

  explainer-Validated : (s : State) → IsChecked s → Validated (ok (explainer sv s))
  unfolding explainer
  explainer-Validated s c = rw c.no_error (explained-Validated s (with_sql sv sv.explain s.sql) c)

  Guarded-choice :
      (b : Bool) (x y : Node) (s : State)
      → Guarded x s
      → (b ≡ false → Guarded y s)
      → Guarded (if b then x else y) s
  Guarded-choice true x y s hx hy = hx
  Guarded-choice false x y s hx hy = hy refl

  -- Each node that returns leaves the state that its next node may have.
  next-Guarded :
      (n : Node) (s s' : State)
      → Guarded n s
      → run_node sv n s ≡ ok s'
      → (m : Node) → next_node n s' ≡ some m
      → Guarded m s'
  unfolding run_node next_node
  next-Guarded at_router s s' g e m e' = subst (λ m. Guarded m s') (some-injective e') tt
  next-Guarded at_loader s s' g e m e' = subst (λ m. Guarded m s') (some-injective e') tt
  next-Guarded at_telemetry s s' g e m e' = subst (λ m. Guarded m s') (some-injective e') tt
  next-Guarded at_planner s s' g e m e' =
      subst (λ m. Guarded m s') (some-injective e')
        (Guarded-choice s'.clarification_requested at_persist at_sql_generator s' tt (λ h. tt))
  next-Guarded at_sql_generator s s' g e m e' = subst (λ m. Guarded m s') (some-injective e') tt
  next-Guarded at_validator s s' g e m e' =
      subst (λ m. Guarded m s') (some-injective e')
        (Guarded-choice (has_error s') at_react_repair at_explain_gate s' tt
          (subst Validated e (validator-Validated s)))
  next-Guarded at_explain_gate s s' g e m e' =
      subst (λ m. Guarded m s') (some-injective e')
        (Guarded-choice (has_error s') at_react_repair at_execute s' tt
          (subst Validated e (explainer-Validated s g)))
  next-Guarded at_react_repair s s' g e m e' =
      subst (λ m. Guarded m s') (some-injective e')
        (Guarded-choice s'.react_repair_ready at_validator _ s' tt
          (λ h. Guarded-choice s'.react_retry at_react_repair at_persist s' tt (λ h'. tt)))
  next-Guarded at_execute s s' g e m e' =
      subst (λ m. Guarded m s') (some-injective e')
        (Guarded-choice (has_error s') at_react_repair at_invariant_check s' tt (λ h. tt))
  next-Guarded at_invariant_check s s' g e m e' = subst (λ m. Guarded m s') (some-injective e') tt
  next-Guarded at_critic s s' g e m e' =
      subst (λ m. Guarded m s') (some-injective e')
        (Guarded-choice s'.critic_rejected at_react_repair at_optimizer s' tt (λ h. tt))
  next-Guarded at_optimizer s s' g e m e' = subst (λ m. Guarded m s') (some-injective e') tt
  next-Guarded at_persist s s' g e m e' = absurd (cc e')

  Reached-Guarded : (question : String) (n : Node) (s : State) → Reached question n s → Guarded n s
  Reached-Guarded question n s begun = tt
  Reached-Guarded question m s' (moved {n = n} {s = s} r e e') =
      next-Guarded n s s' (Reached-Guarded question n s r) e m e'

  -- Whatever the model answers, at every repair: where a run comes to the execute node, no error is
  -- noted and the query of the state is one read-only statement that the lint has no problem with.
  pub execute-IsChecked :
      (question : String) (s : State) → Reached question at_execute s → IsChecked s
  execute-IsChecked question s r = Reached-Guarded question at_execute s r
