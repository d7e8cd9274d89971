-- ===== src/QueryAgent/Repair.antt =====
-- sqlagent/query_agent/graph.py: _compile_model_plan, _scratch_model_plan and the react_repair node.
use Prim.Native.String.{◌++◌}
use po_c_sqlagent.Base.{
  ℕ, ◌+◌, String, Bool, true, false, not, ◌||◌, Option, none, some, List, [], ◌∷◌, ◌++◌ as append,
  ok, err, ◌>>=◌, ltb, if◌then◌else◌,
}
use po_c_sqlagent.Text.{◌=ₛ◌, truncate, show_nat}
use po_c_sqlagent.Python.{
  Value, int, pos, str, dict, Fields, end, field, Error, value_error, llm_unavailable, type_error,
  attribute_error, key_error, Py, truthy, get, get?, iterate, show,
}
use po_c_sqlagent.Composer.{assemble_spec}
use po_c_sqlagent.QueryAgent.State.{State, Services, repair_plan, repair_sql}

-- `any(stage.get("materialize") for stage in stages)`.
any_materialize : List Value → Py Bool
unfolding truthy get
any_materialize [] = ok false
any_materialize (dict stage ∷ rest) =
    let later = any_materialize rest in if truthy (get "materialize" stage) then ok true else later
any_materialize (v ∷ rest) = err attribute_error

unfoldable pub text_of : Option String → String
text_of none = ""
text_of (some s) = s

-- `v.get(key, [])`, iterated.
pub iterate_or_none : String → Fields → Py (List Value)
unfolding get? iterate
iterate_or_none key plan = elim (get? key plan) [ none ↦ ok [] | some v ↦ iterate v ]

step_of : ℕ → String → Fields → Value
step_of attempt phase more =
    dict (field "attempt" (int (pos attempt)) (field "phase" (str phase) more))

add_step : Value → State → State
add_step v s = record s { react_steps = append s.react_steps (v ∷ []) }

module _ (sv : Services) where
  unfoldable pub compile_model_plan : Fields → Py String
  unfolding truthy get
  compile_model_plan spec =
      if truthy (get "stages" spec)
      then sv.compile_analytical spec
      else assemble_spec sv.schema none none (dict spec)

  -- The keys of a scratch plan, where some stage is materialised.
  unfoldable pub scratch_model_plan : Fields → Py (Option (List String × String))
  unfolding truthy get iterate any_materialize
  scratch_model_plan spec =
      if truthy (get "stages" spec)
      then (do
        stages ← iterate (get "stages" spec)
        materialised ← any_materialize stages
        if materialised then (do plan ← sv.compile_scratch spec; ok (some plan)) else ok none)
      else ok none

  -- `{**update, **_scratch_model_plan(...)}`: without a scratch plan the old keys stay.
  unfoldable pub with_scratch : Option (List String × String) → State → State
  with_scratch none s = s
  with_scratch (some (stages, final)) s = record s {
    scratch_stages = stages;
    scratch_final = final;
  }

  -- The three ways in which the node ends.
  unfoldable pub stopped : String → String → State → State
  unfolding add_step step_of
  stopped action message s =
      record (add_step (step_of s.react_attempts "stop" (field "action" (str action) end)) s) {
        react_repair_ready = false;
        react_retry = false;
        error = message;
      }

  unfoldable pub retried : String → Fields → String → State → State
  unfolding add_step step_of
  retried note more message s =
      record (add_step (step_of s.react_attempts "observe" (field "error" (str note) more)) s) {
        react_repair_ready = false;
        react_retry = true;
        error = message;
      }

  unfoldable pub repaired : String → State → State
  repaired sql s = record s {
    sql = some sql;
    error = "";
    critic_rejected = false;
    react_repair_ready = true;
    react_retry = false;
    llm_used = true;
  }

  -- `except (LLMUnavailable, KeyError, ValueError, TypeError)`.
  unfoldable pub is_caught : Error → Bool
  is_caught (value_error m) = true
  is_caught (llm_unavailable m) = true
  is_caught key_error = true
  is_caught type_error = true
  is_caught _ = false

  unfoldable pub caught : String → State → Error → Py State
  unfolding is_caught add_step step_of truncate
  caught error s e =
      if is_caught e
      then ok
          record (add_step
            (step_of s.react_attempts "stop" (
              field "action" (str "repair_failed")
                (field "error" (str (truncate 240 (sv.str_exc e))) end)))
            s) {
              react_repair_ready = false;
              react_retry = false;
              error = "ReAct repair failed: " ++ (sv.str_exc e ++ ("; original error: " ++ error));
            }
      else err e

  unfoldable pub catching : String → State → Py State → Py State
  unfolding caught
  catching error s (ok s') = ok s'
  catching error s (err e) = caught error s e

  -- `if not isinstance(fixed, dict) or not (fixed.get("from") or fixed.get("stages"))`.
  unfoldable pub plan_of : Value → Py Fields
  unfolding truthy get
  plan_of (dict plan) =
      if truthy (get "from" plan) || truthy (get "stages" plan)
      then ok plan
      else err (value_error "repair returned no valid query plan")
  plan_of _ = err (value_error "repair returned no valid query plan")

  unfoldable pub acted : String → String → Value → State → State
  unfolding add_step step_of truncate
  acted action sql rationale s =
      add_step
        (step_of s.react_attempts "act" (
          field "action" (str action)
            (field "sql" (str (truncate 400 sql)) (field "rationale" rationale end))))
        s

  unfoldable pub accepted : String → Fields → State → State
  unfolding repaired
  accepted sql fixed s = record (repaired sql s) { spec = some fixed }

  -- The repaired plan compiles to a query, does not assemble, or raises something else.
  unfoldable pub plan_compiled : String → State → Fields → Py String → Py State
  unfolding acted scratch_model_plan with_scratch accepted catching retried
  plan_compiled error s fixed (ok sql) =
      let s' = acted "repair_plan" sql (str "schema-guided plan correction") s in
      catching error s'
        (do scratch ← scratch_model_plan fixed; ok (with_scratch scratch (accepted sql fixed s')))
  plan_compiled error s fixed (err (value_error m)) =
      let message = "repaired plan still does not assemble: " ++ m in
      ok (retried message end message (record s { spec = some fixed }))
  plan_compiled error s fixed (err e) = err e

  unfoldable pub repair_by_plan : String → Fields → State → Py State
  unfolding iterate_or_none plan_of plan_compiled compile_model_plan retried
  repair_by_plan error spec s = do
    _ ← iterate_or_none "joins" spec
    _ ← iterate_or_none "group_by" spec
    answer ← sv.chat_json repair_plan s
    fixed ← plan_of answer
    if sv.same_plan fixed spec
        then ok (
            retried "repair returned the same query plan; the next repair must materially change it"
              end ("previous repair returned an unchanged query plan; change it to fix: " ++ error)
              s)
        else plan_compiled error s fixed (compile_model_plan fixed)

  -- The answer's "sql", cleaned; an answer that is no dict has no `get`.
  unfoldable pub answered_sql : Value → Py (String × Value)
  unfolding get?
  answered_sql (dict answer) = ok (
    sv.clean_sql (show (elim (get? "sql" answer) [ none ↦ str "" | some v ↦ v ])),
    elim (get? "rationale" answer) [ none ↦ str "schema-guided correction" | some v ↦ v ],
  )
  answered_sql _ = err attribute_error

  unfoldable pub sql_answered : String → State → String × Value → State
  unfolding retried repaired acted truncate text_of show
  sql_answered error s (sql, rationale) =
      if sql =ₛ "" || sql =ₛ text_of s.sql
      then retried "repair returned the same SQL; the next repair must materially change the query"
          (field "sql" (str (truncate 400 sql)) end)
          ("previous repair returned unchanged SQL; propose a materially different query that fixes: "
            ++ error)
          s
      else repaired sql (acted "repair_sql" sql (str (truncate 240 (show rationale))) s)

  unfoldable pub repair_by_sql : String → State → Py State
  unfolding answered_sql sql_answered
  repair_by_sql error s = do
    answer ← sv.chat_json repair_sql s
    found ← answered_sql answer
    ok (sql_answered error s found)

  unfoldable pub try_repair : String → State → Option Fields → Py State
  unfolding repair_by_plan repair_by_sql
  try_repair error s none = repair_by_sql error s
  try_repair error s (some spec) = repair_by_plan error spec s

  -- The state with this attempt counted and its error observed.
  unfoldable pub observed : String → State → State
  unfolding add_step step_of truncate text_of
  observed error s =
      let s' = record s { react_attempts = s.react_attempts + 1 } in
      add_step
        (step_of s'.react_attempts "observe"
          (field "error" (str error) (field "sql" (str (truncate 400 (text_of s.sql))) end)))
        s'

  unfoldable pub react_repair : State → Py State
  unfolding observed stopped try_repair catching show_nat
  react_repair s =
      let error = if s.error =ₛ "" then "unknown database error" else s.error in
      let s' = observed error s in
      if ltb sv.max_attempts s'.react_attempts
      then ok (
          stopped "repair_budget_exhausted"
            ("ReAct repair budget exhausted after "
              ++ (show_nat sv.max_attempts ++ (" attempts: " ++ error)))
            s')
      else if not sv.has_llm
      then ok (stopped "llm_unavailable" ("Cannot repair SQL without an LLM: " ++ error) s')
      else catching error s' (try_repair error s' s.spec)
