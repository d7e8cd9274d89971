-- ===== src/QueryAgent/Attempts.antt =====
-- The nodes and the number of repair attempts that the state counts: react_repair adds one, and no
-- other node changes it.
use po_c_sqlagent.Base.{
  ℕ, ◌+◌, ◌<◌, String, Bool, true, false, ◌≡◌, refl, inl, inr, Option, none, some, List, [], ◌∷◌,
  ok, err, ◌>>=◌, Bool-cases, ltb, lt→ltb, if◌then◌else◌, not, subst, ◌||◌,
}
use po_c_sqlagent.Text.{◌=ₛ◌}
use po_c_sqlagent.Python.{Value, Fields, Error, Py, str, value_error}
use po_c_sqlagent.QueryAgent.State.{State, Services, Optimized, repair_plan, repair_sql}
use po_c_sqlagent.QueryAgent.Generator.{generate}
use po_c_sqlagent.QueryAgent.Repair.{
  compile_model_plan, scratch_model_plan, with_scratch, stopped, retried, repaired, is_caught,
  caught, catching, plan_of, accepted, acted, plan_compiled, repair_by_plan, answered_sql,
  sql_answered, repair_by_sql, try_repair, observed, react_repair, text_of, iterate_or_none,
}
use po_c_sqlagent.QueryAgent.Nodes.{
  has_error, router, loader, telemetry, planner, sql_generator, lint, linted, checked, check_sql,
  validator, explained, with_sql, explainer, executed, execution, executor, invariants, review,
  with_verdict, critic, optimised, optimizer, persist,
}
use po_c_sqlagent.QueryAgent.Graph.{
  Node, at_router, at_loader, at_telemetry, at_planner, at_sql_generator, at_validator,
  at_explain_gate, at_react_repair, at_execute, at_invariant_check, at_critic, at_optimizer,
  at_persist, run_node,
}

-- A node that returns leaves `n` attempts counted.
abbrev pub Counts : ℕ → Py State → Type 0
Counts n (ok s) = s.react_attempts ≡ n
Counts n (err e) = Unit

Counts-bind :
    {A : Type 0} (n : ℕ) (m : Py A) (f : A → Py State)
    → ((a : A) → Counts n (f a))
    → Counts n (m >>= f)
Counts-bind n (ok a) f h = h a
Counts-bind n (err e) f h = tt

choice-Counts :
    (b : Bool) (n : ℕ) (x y : Py State) → Counts n x → Counts n y → Counts n (if b then x else y)
choice-Counts true n x y hx hy = hx
choice-Counts false n x y hx hy = hy

-- A repair that leads to persist.
abbrev pub GivesUp : Py State → Type 0
GivesUp (ok s) = (s.react_repair_ready ≡ false) × (s.react_retry ≡ false)
GivesUp (err e) = ⊥

module _ (sv : Services) where
  router-Counts : (s : State) → Counts s.react_attempts (router sv s)
  unfolding router
  router-Counts s = Counts-bind s.react_attempts (sv.route_question s.question) _ (λ r. refl)

  loader-Counts : (s : State) → Counts s.react_attempts (loader sv s)
  unfolding loader
  loader-Counts s = Counts-bind s.react_attempts (sv.load s) _ (λ r. refl)

  telemetry-Counts : (s : State) → Counts s.react_attempts (telemetry sv s)
  unfolding telemetry
  telemetry-Counts s = Counts-bind s.react_attempts sv.known_metrics _ (λ r. refl)

  generator-Counts : (s : State) → Counts s.react_attempts (sql_generator sv s)
  unfolding sql_generator
  generator-Counts s = Counts-bind s.react_attempts (generate sv s) _ (λ r. refl)

  linted-Counts :
      (s : State) (q : String) (ps : List String) → Counts s.react_attempts (ok (linted sv s q ps))
  unfolding linted
  linted-Counts s q [] = refl
  linted-Counts s q (p ∷ ps) = refl

  checked-Counts : (s : State) (r : Py String) → Counts s.react_attempts (checked sv s r)
  unfolding checked
  checked-Counts s (ok q) = linted-Counts s q (lint sv q)
  checked-Counts s (err (value_error m)) = refl
  checked-Counts s (err e) = tt

  check-Counts : (s : State) (o : Option String) → Counts s.react_attempts (check_sql sv s o)
  unfolding check_sql
  check-Counts s none = tt
  check-Counts s (some q) = checked-Counts s _

  validator-Counts : (s : State) → Counts s.react_attempts (validator sv s)
  unfolding validator
  validator-Counts s = elim (Bool-cases (has_error s)) [
    | inl bad ↦ rw bad refl
    | inr good ↦ rw good (check-Counts s s.sql)
  ]

  explained-Counts : (s : State) (r : Py Value) → Counts s.react_attempts (ok (explained sv s r))
  unfolding explained
  explained-Counts s (ok v) = refl
  explained-Counts s (err e) = refl

  explainer-Counts : (s : State) → Counts s.react_attempts (ok (explainer sv s))
  unfolding explainer
  explainer-Counts s = elim (Bool-cases (has_error s)) [
    | inl bad ↦ rw bad refl
    | inr good ↦ rw good (explained-Counts s (with_sql sv sv.explain s.sql))
  ]

  executed-Counts : (s : State) (r : Py Value) → Counts s.react_attempts (ok (executed sv s r))
  unfolding executed
  executed-Counts s (ok v) = refl
  executed-Counts s (err e) = refl

  executor-Counts : (s : State) → Counts s.react_attempts (ok (executor sv s))
  unfolding executor
  executor-Counts s = elim (Bool-cases (has_error s)) [
    | inl bad ↦ rw bad refl
    | inr good ↦ rw good (executed-Counts s (execution sv s))
  ]

  invariants-Counts : (s : State) → Counts s.react_attempts (invariants sv s)
  unfolding invariants
  invariants-Counts s = elim (Bool-cases (has_error s)) [
    | inl bad ↦ rw bad refl
    | inr good ↦ rw good (Counts-bind s.react_attempts (sv.check_invariants s.result) _ (λ v. refl))
  ]

  verdict-Counts :
      (s : State) (v : Bool × String) → Counts s.react_attempts (ok (with_verdict sv s v))
  unfolding with_verdict
  verdict-Counts s (true, feedback) = refl
  verdict-Counts s (false, feedback) = refl

  critic-Counts : (s : State) → Counts s.react_attempts (critic sv s)
  unfolding critic
  critic-Counts s = elim (Bool-cases (has_error s)) [
    | inl bad ↦ rw bad refl
    | inr good ↦ rw good (Counts-bind s.react_attempts (review sv s) _ (verdict-Counts s))
  ]

  optimised-Counts :
      (s : State) (o : List Value × Option Optimized)
      → Counts s.react_attempts (ok (optimised sv s o))
  unfolding optimised
  optimised-Counts s (steps, none) = refl
  optimised-Counts s (steps, some o) = refl

  optimizer-Counts : (s : State) → Counts s.react_attempts (optimizer sv s)
  unfolding optimizer
  optimizer-Counts s = elim (Bool-cases (has_error s || (s.critic_rejected || not sv.has_llm))) [
    | inl skips ↦ rw skips refl
    | inr runs ↦ rw runs (Counts-bind s.react_attempts (sv.optimize s) _ (optimised-Counts s))
  ]

  persist-Counts : (s : State) → Counts s.react_attempts (persist sv s)
  unfolding persist
  persist-Counts s = Counts-bind s.react_attempts (sv.save s) _ (λ u. refl)

  caught-Counts :
      (error : String) (s : State) (e : Error) → Counts s.react_attempts (caught sv error s e)
  unfolding caught
  caught-Counts error s e = elim (Bool-cases (is_caught sv e)) [
    | inl hit ↦ rw hit refl
    | inr miss ↦ rw miss tt
  ]

  catching-Counts :
      (n : ℕ) (error : String) (s : State) (r : Py State)
      → s.react_attempts ≡ n
      → Counts n r
      → Counts n (catching sv error s r)
  unfolding catching
  catching-Counts n error s (ok s') e h = h
  catching-Counts n error s (err x) e h =
      subst (λ k. Counts k (caught sv error s x)) e (caught-Counts error s x)

  scratch-Counts :
      (s : State) (o : Option (List String × String))
      → Counts s.react_attempts (ok (with_scratch sv o s))
  unfolding with_scratch
  scratch-Counts s none = refl
  scratch-Counts s (some (stages, final)) = refl

  compiled-Counts :
      (error : String) (s : State) (fixed : Fields) (r : Py String)
      → Counts s.react_attempts (plan_compiled sv error s fixed r)
  unfolding plan_compiled accepted acted repaired retried
  compiled-Counts error s fixed (ok sql) =
      let s' = acted sv "repair_plan" sql (str "schema-guided plan correction") s in
      catching-Counts s.react_attempts error s' _ refl (
        Counts-bind s.react_attempts (scratch_model_plan sv fixed) _
          (λ o. scratch-Counts (accepted sv sql fixed s') o))
  compiled-Counts error s fixed (err (value_error m)) = refl
  compiled-Counts error s fixed (err e) = tt

  by_plan-Counts :
      (error : String) (spec : Fields) (s : State)
      → Counts s.react_attempts (repair_by_plan sv error spec s)
  unfolding repair_by_plan retried
  by_plan-Counts error spec s =
      Counts-bind s.react_attempts (iterate_or_none "joins" spec) _ (λ joins.
        Counts-bind s.react_attempts (iterate_or_none "group_by" spec) _ (λ dims.
          Counts-bind s.react_attempts (sv.chat_json repair_plan s) _ (λ answer.
            Counts-bind s.react_attempts (plan_of sv answer) _ (λ fixed.
              choice-Counts (sv.same_plan fixed spec) s.react_attempts _ _ refl
                (compiled-Counts error s fixed (compile_model_plan sv fixed))))))

  answered-Counts :
      (error : String) (s : State) (a : String × Value)
      → Counts s.react_attempts (ok (sql_answered sv error s a))
  unfolding sql_answered retried repaired acted
  answered-Counts error s (sql, rationale) = elim (Bool-cases (sql =ₛ "" || sql =ₛ text_of s.sql)) [
    | inl unchanged ↦ rw unchanged refl
    | inr changed ↦ rw changed refl
  ]

  by_sql-Counts : (error : String) (s : State) → Counts s.react_attempts (repair_by_sql sv error s)
  unfolding repair_by_sql
  by_sql-Counts error s = Counts-bind s.react_attempts (sv.chat_json repair_sql s) _ (λ answer.
      Counts-bind s.react_attempts (answered_sql sv answer) _ (λ a. answered-Counts error s a))

  try_repair-Counts :
      (error : String) (s : State) (o : Option Fields)
      → Counts s.react_attempts (try_repair sv error s o)
  unfolding try_repair
  try_repair-Counts error s none = by_sql-Counts error s
  try_repair-Counts error s (some spec) = by_plan-Counts error spec s

  observed-attempts :
      (error : String) (s : State) → (observed sv error s).react_attempts ≡ s.react_attempts + 1
  unfolding observed
  observed-attempts error s = refl

  pub repair-Counts : (s : State) → Counts (s.react_attempts + 1) (react_repair sv s)
  unfolding react_repair stopped
  repair-Counts s =
      let error = if s.error =ₛ "" then "unknown database error" else s.error in
      let s' = observed sv error s in
      choice-Counts (ltb sv.max_attempts s'.react_attempts) (s.react_attempts + 1) _ _
        (observed-attempts error s)
        (choice-Counts (not sv.has_llm) (s.react_attempts + 1) _ _ (observed-attempts error s) (
          catching-Counts (s.react_attempts + 1) error s' _ (observed-attempts error s) (
            subst (λ n. Counts n (try_repair sv error s' s.spec)) (observed-attempts error s)
              (try_repair-Counts error s' s.spec))))

  -- A repair beyond the budget gives up.
  pub repair-GivesUp :
      (s : State) → sv.max_attempts < s.react_attempts + 1 → GivesUp (react_repair sv s)
  unfolding react_repair stopped
  repair-GivesUp s spent = rw (lt→ltb sv.max_attempts (s.react_attempts + 1) spent) (refl, refl)

  pub node-Counts :
      (n : Node) (s : State) → (n ≡ at_react_repair → ⊥) → Counts s.react_attempts (run_node sv n s)
  unfolding run_node planner
  node-Counts at_router s other = router-Counts s
  node-Counts at_loader s other = loader-Counts s
  node-Counts at_telemetry s other = telemetry-Counts s
  node-Counts at_planner s other = refl
  node-Counts at_sql_generator s other = generator-Counts s
  node-Counts at_validator s other = validator-Counts s
  node-Counts at_explain_gate s other = explainer-Counts s
  node-Counts at_react_repair s other = absurd (other refl)
  node-Counts at_execute s other = executor-Counts s
  node-Counts at_invariant_check s other = invariants-Counts s
  node-Counts at_critic s other = critic-Counts s
  node-Counts at_optimizer s other = optimizer-Counts s
  node-Counts at_persist s other = persist-Counts s
