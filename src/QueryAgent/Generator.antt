-- ===== src/QueryAgent/Generator.antt =====
-- sqlagent/query_agent/graph.py: _select_tables and the sql_generator node. A set of tables is a list
-- without repetitions.
use Prim.Native.String.{◌++◌}
use po_c_sqlagent.Base.{
  String, Bool, true, false, ◌||◌, Option, none, some, List, [], ◌∷◌, ok, err, ◌>>=◌, all, leb,
  length, if◌then◌else◌,
}
use po_c_sqlagent.Text.{◌=ₛ◌, member}
use po_c_sqlagent.Python.{
  Value, list, dict, nil, Fields, llm_unavailable, value_error, key_error, type_error, Py, truthy,
  either, get, get?, iterate, show,
}
use po_c_sqlagent.Composer.{Schema, has_table, add, sorted}
use po_c_sqlagent.QueryAgent.State.{
  State, Services, Generated, choose_tables, decompose, expand, free_form,
}
use po_c_sqlagent.QueryAgent.Repair.{compile_model_plan, scratch_model_plan, is_caught}

-- `{str(t) for t in values if str(t) in schema}`.
tables_of : Schema → List Value → List String
unfolding has_table add show
tables_of schema [] = []
tables_of schema (v ∷ vs) =
    let rest = tables_of schema vs in if has_table schema (show v) then add (show v) rest else rest

union : List String → List String → List String
unfolding add
union [] ys = ys
union (x ∷ xs) ys = add x (union xs ys)

abbrev nothing_in : {A : Type 0} → List A → Bool
nothing_in [] = true
nothing_in (x ∷ xs) = false

-- `scope or set()` and `chosen or None`.
abbrev scope_of : Option (List String) → List String
scope_of none = []
scope_of (some ts) = ts

abbrev or_none : List String → Option (List String)
or_none [] = none
or_none (t ∷ ts) = some (t ∷ ts)

loaded? : String → List (String × String) → Option String
loaded? path [] = none
loaded? path ((p, content) ∷ rest) = if p =ₛ path then some content else loaded? path rest

abbrev generated : Option String → Option Fields → String → Bool → List String → Generated
generated sql spec error llm_used scope = record {
  sql = sql;
  spec = spec;
  error = error;
  llm_used = llm_used;
  schema_scope = scope;
  scratch_stages = [];
  scratch_final = "";
}

-- A compiled plan, with the keys of its scratch plan where it has one.
planned : String → Fields → List String → Option (List String × String) → Generated
planned sql spec scope none = generated (some sql) (some spec) "" true scope
planned sql spec scope (some (stages, final)) =
    record (generated (some sql) (some spec) "" true scope) {
      scratch_stages = stages;
      scratch_final = final;
    }

generation_failed : String → Generated
generation_failed m = generated none none ("SQL generation failed: " ++ m) false []

module _ (sv : Services) where
  chosen_tables : Py Value → Py (Option (List String))
  unfolding tables_of iterate either get
  chosen_tables (ok (dict answer)) = do
    tables ← iterate (either (get "tables" answer) (list nil))
    ok (or_none (tables_of sv.schema tables))
  chosen_tables (ok v) = ok none
  chosen_tables (err (llm_unavailable m)) = ok none
  chosen_tables (err e) = err e

  unfoldable pub select_tables : State → Py (Option (List String))
  unfolding chosen_tables
  select_tables s =
      if leb (length sv.schema) 4 then ok none else chosen_tables (sv.chat_json choose_tables s)

  -- The tables of the routed domain, or those that the model selects.
  scope_for : State → Option (List String) → Py (Option (List String))
  unfolding select_tables
  scope_for s (some ts) = ok (some ts)
  scope_for s none = select_tables s

  -- Free-form SQL: `answer["sql"]` of a dict may be missing, and anything else has no such key.
  sql_item : Value → Py Value
  unfolding get?
  sql_item (dict answer) = elim (get? "sql" answer) [ none ↦ err key_error | some v ↦ ok v ]
  sql_item v = err type_error

  free_result : Py Value → Py Generated
  unfolding is_caught generation_failed show
  free_result (ok v) = ok (generated (some (sv.clean_sql (show v))) none "" true [])
  free_result (err e) = if is_caught sv e then ok (generation_failed (sv.str_exc e)) else err e

  unfoldable pub free_sql : State → Py Generated
  unfolding free_result sql_item
  free_sql s = free_result (do answer ← sv.chat_json free_form s; sql_item answer)

  -- `except (ValueError, AnalyticalPlanError)` around the compilation.
  plan_result : Fields → List String → Py (String × Option (List String × String)) → Py Generated
  unfolding planned
  plan_result spec scope (ok (sql, scratch)) = ok (planned sql spec scope scratch)
  plan_result spec scope (err (value_error m)) =
      ok (generated none (some spec) ("query plan assembly failed: " ++ m) true scope)
  plan_result spec scope (err e) = err e

  compiled : Fields → Py (String × Option (List String × String))
  unfolding compile_model_plan scratch_model_plan
  compiled spec = do
    sql ← compile_model_plan sv spec
    scratch ← scratch_model_plan sv spec
    ok (sql, scratch)

  -- A plan of the model; an answer that is none is dropped for free-form SQL.
  from_plan : State → List String → Value → Py Generated
  unfolding plan_result compiled free_sql truthy get
  from_plan s scope (dict spec) =
      if truthy (get "from" spec) || truthy (get "stages" spec)
      then plan_result spec scope (compiled spec)
      else free_sql s
  from_plan s scope v = free_sql s

  -- The answer of the model for a plan: where it is unavailable, the generation has failed.
  with_plan : State → List String → Py Value → Py Generated
  unfolding from_plan generation_failed
  with_plan s scope (ok v) = from_plan s scope v
  with_plan s scope (err (llm_unavailable m)) = ok (generation_failed m)
  with_plan s scope (err e) = err e

  -- The decomposer may ask once for more tables.
  expanded : State → Option (List String) → Value → List String → Py Generated
  unfolding with_plan from_plan union sorted
  expanded s scope answer requested =
      if nothing_in requested || all (λ t. member t (scope_of scope)) requested
      then from_plan s (sorted (scope_of scope)) answer
      else (let wider = union (scope_of scope) requested in
          with_plan s (sorted wider) (sv.chat_json (expand wider) s))

  decomposed : State → Option (List String) → Py Value → Py Generated
  unfolding expanded from_plan generation_failed truthy get iterate tables_of sorted
  decomposed s scope (ok (dict spec)) =
      if truthy (get "needed_tables" spec)
      then (do
        needed ← iterate (get "needed_tables" spec)
        expanded s scope (dict spec) (tables_of sv.schema needed))
      else from_plan s (sorted (scope_of scope)) (dict spec)
  decomposed s scope (ok v) = from_plan s (sorted (scope_of scope)) v
  decomposed s scope (err (llm_unavailable m)) = ok (generation_failed m)
  decomposed s scope (err e) = err e

  unfoldable pub by_decomposition : State → Py Generated
  unfolding scope_for decomposed
  by_decomposition s = do
    scope ← scope_for s (sv.domain_tables s)
    decomposed s scope (sv.chat_json (decompose (scope_of scope)) s)

  -- An analytical candidate; a failure of it is passed over.
  candidate_result : State → Py (Fields × String × Option (List String × String)) → Py Generated
  unfolding planned is_caught by_decomposition
  candidate_result s (ok (spec, sql, scratch)) = ok (planned sql spec [] scratch)
  candidate_result s (err e) =
      let later = by_decomposition s in if is_caught sv e then later else err e

  by_candidate : State → Py Generated
  unfolding candidate_result scratch_model_plan
  by_candidate s = candidate_result s (do
    (spec, sql) ← sv.select_analytical_candidate s
    scratch ← scratch_model_plan sv spec
    ok (spec, sql, scratch))

  by_model : State → Py Generated
  unfolding by_candidate by_decomposition free_sql
  by_model s =
      if nothing_in sv.schema
      then free_sql s
      else if sv.is_complex_question s.question
      then by_candidate s
      else by_decomposition s

  -- The text of a template that is loaded.
  template_text : State → Py (Option String)
  unfolding loaded?
  template_text s = if s.template =ₛ "" then ok none else (do
    path ← sv.template_path s.template
    ok (if path =ₛ "" then none else loaded? path s.loaded_files))

  without_template : State → Option String → Py Generated
  unfolding by_model
  without_template s (some text) = ok (generated (some (sv.clean_sql text)) none "" false [])
  without_template s none =
      if sv.has_llm
      then by_model s
      else ok (
          generated none none
            "No matching template in the skill manifest and no LLM available to generate SQL" false
            [])

  unfoldable pub generate : State → Py Generated
  unfolding template_text without_template
  generate s = do text ← template_text s; without_template s text
