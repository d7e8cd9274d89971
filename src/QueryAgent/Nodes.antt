-- ===== src/QueryAgent/Nodes.antt =====
-- sqlagent/query_agent/graph.py: the other nodes. A node returns the state with its update.
use Prim.Native.String.{◌++◌}
use po_c_sqlagent.Base.{
  String, Bool, true, false, not, ◌||◌, ◌&&◌, Option, none, some, List, [], ◌∷◌, ok, err, ◌>>=◌,
  ◌>>◌, if◌then◌else◌,
}
use po_c_sqlagent.Text.{◌=ₛ◌, truncate, join}
use po_c_sqlagent.Python.{
  Value, bool, str, list, dict, nil, cons, end, field, value_error, llm_unavailable, key_error,
  attribute_error, Py, truthy, get?, show,
}
use po_c_sqlagent.Composer.{Schema}
use po_c_sqlagent.Database.{validate_read_only}
use po_c_sqlagent.QueryAgent.Question.{detect_ambiguity, clarification_prompt, metadata_drift}
use po_c_sqlagent.QueryAgent.State.{State, Services, Optimized, criticise}
use po_c_sqlagent.QueryAgent.Generator.{generate}
use po_c_sqlagent.QueryAgent.Repair.{text_of}

-- `if state.get("error")`.
abbrev pub has_error : State → Bool
has_error s = not (s.error =ₛ "")

abbrev pub fail : String → State → State
fail message s = record s { error = message }

no_schema : Schema → Bool
no_schema [] = true
no_schema (t ∷ ts) = false

module _ (sv : Services) where
  unfoldable pub router : State → Py State
  router s = do
    (route, files, template) ← sv.route_question s.question
    ok (record s { route = route; selected_files = files; template = template })

  unfoldable pub loader : State → Py State
  loader s = do loaded ← sv.load s; ok (record s { loaded_files = loaded })

  unfoldable pub telemetry : State → Py State
  unfolding detect_ambiguity clarification_prompt
  telemetry s = do
    metrics ← sv.known_metrics
    let payload = detect_ambiguity s.question metrics
    ok (record s {
      clarification_requested = payload.is_ambiguous;
      clarification = if payload.is_ambiguous then clarification_prompt payload else "";
    })

  unfoldable pub planner : State → State
  planner s = record s {
    plan =
        if s.clarification_requested
        then "request metric clarification before generating SQL"
        else if not (s.template =ₛ "")
        then "reuse template " ++ (s.template ++ " at its documented grain")
        else "select the smallest verified domain, identify grain, generate one read-only query";
  }

  unfoldable pub sql_generator : State → Py State
  unfolding generate
  sql_generator s = do
    g ← generate sv s
    ok (record s {
      sql = g.sql;
      spec = g.spec;
      error = g.error;
      llm_used = g.llm_used;
      schema_scope = g.schema_scope;
      scratch_stages = g.scratch_stages;
      scratch_final = g.scratch_final;
    })

  -- Lint runs where the workspace has a schema.
  unfoldable pub lint : String → List String
  unfolding no_schema
  lint query = if no_schema sv.schema then [] else sv.lint_sql query

  unfoldable pub linted : State → String → List String → State
  unfolding join
  linted s query [] = record s { sql = some query }
  linted s query (p ∷ ps) = fail ("lint failed: " ++ join "; " (p ∷ ps)) s

  -- `except QuerySafetyError`.
  unfoldable pub checked : State → Py String → Py State
  unfolding linted lint
  checked s (ok query) = ok (linted s query (lint query))
  checked s (err (value_error m)) = ok (fail m s)
  checked s (err e) = err e

  unfoldable pub check_sql : State → Option String → Py State
  unfolding checked validate_read_only
  check_sql s none = err key_error
  check_sql s (some sql) = checked s (validate_read_only sv.format_sql sv.statements [] sql)

  unfoldable pub validator : State → Py State
  unfolding check_sql
  validator s = if has_error s then ok s else check_sql s s.sql

  unfoldable pub explained : State → Py Value → State
  explained s (ok v) = record s { explain = v }
  explained s (err e) = fail ("EXPLAIN failed: " ++ sv.str_exc e) s

  -- `state["sql"]` stands inside the try: a missing key is one more failure.
  unfoldable pub with_sql : (String → Py Value) → Option String → Py Value
  with_sql f none = err key_error
  with_sql f (some sql) = f sql

  unfoldable pub explainer : State → State
  unfolding explained with_sql
  explainer s = if has_error s then s else explained s (with_sql sv.explain s.sql)

  abbrev none_in : List String → Bool
  none_in [] = true
  none_in (x ∷ xs) = false

  unfoldable pub executed : State → Py Value → State
  executed s (ok v) = record s { result = v }
  executed s (err e) = fail ("execution failed: " ++ sv.str_exc e) s

  -- What is executed: the scratch plan of the state where it has one, else its query.
  unfoldable pub execution : State → Py Value
  unfolding with_sql
  execution s =
      if not (none_in s.scratch_stages) && (not (s.scratch_final =ₛ "") && sv.has_dsn)
      then sv.execute_scratch s.scratch_stages s.scratch_final
      else with_sql sv.execute s.sql

  unfoldable pub executor : State → State
  unfolding executed execution
  executor s = if has_error s then s else executed s (execution s)

  unfoldable pub invariants : State → Py State
  invariants s =
      if has_error s
      then ok (record s {
        invariants =
            dict
              (field "passed" (bool false) (field "failures" (list (cons (str s.error) nil)) end));
      })
      else (do v ← sv.check_invariants s.result; ok (record s { invariants = v }))

  abbrev pub verdict : Bool → String → Value
  verdict answered feedback =
      dict (field "answered" (bool answered) (field "feedback" (str feedback) end))

  -- The model's verdict; a model that cannot answer lets the query pass.
  unfoldable pub judged : Py Value → Py (Bool × String)
  unfolding truthy get? show truncate
  judged (ok (dict answer)) = ok (
    elim (get? "answered" answer) [ none ↦ true | some v ↦ truthy v ],
    truncate 300 (show (elim (get? "feedback" answer) [ none ↦ str "" | some v ↦ v ])),
  )
  judged (ok v) = err attribute_error
  judged (err (llm_unavailable m)) = ok (true, "")
  judged (err e) = err e

  unfoldable pub review : State → Py (Bool × String)
  unfolding judged metadata_drift text_of
  review s =
      if metadata_drift s.question (text_of s.sql)
      then ok (false, "the query reads catalog metadata, but the question asks about business data")
      else if sv.has_llm
      then judged (sv.chat_json criticise s)
      else ok (true, "")

  unfoldable pub with_verdict : State → Bool × String → State
  with_verdict s (true, feedback) = record s { critic = verdict true feedback }
  with_verdict s (false, feedback) = record s {
    critic = verdict false feedback;
    critic_rejected = true;
    error = "critic rejected the answer: " ++ feedback;
  }

  unfoldable pub critic : State → Py State
  unfolding review with_verdict
  critic s = if has_error s then ok s else (do v ← review s; ok (with_verdict s v))

  unfoldable pub optimised : State → List Value × Option Optimized → State
  optimised s (steps, none) = record s { react_steps = steps }
  optimised s (steps, some o) = record s {
    sql = some o.sql;
    explain = o.explain;
    result = o.result;
    react_steps = steps;
    llm_used = true;
  }

  unfoldable pub optimizer : State → Py State
  unfolding optimised
  optimizer s =
      if has_error s || (s.critic_rejected || not sv.has_llm)
      then ok s
      else (do o ← sv.optimize s; ok (optimised s o))

  unfoldable pub persist : State → Py State
  persist s = do sv.save s; ok s
