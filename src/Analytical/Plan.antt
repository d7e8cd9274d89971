-- ===== src/Analytical/Plan.antt =====
-- sqlagent/analytical.py: AnalyticalPlanCompiler.compile, is_complex_question and
-- select_analytical_candidate.
use Prim.Native.String.{◌++◌}
use po_c_sqlagent.Base.{
  ℕ, ◌+◌, String, Bool, List, [], ◌∷◌, map, ok, err, ◌>>=◌, ◌>>◌, guard, length,
}
use po_c_sqlagent.Text.{member, lower, join, show_nat, contains_any}
use po_c_sqlagent.Python.{
  Value, null, list, dict, cons, Fields, Py, get, either, to_list, show, str, repr_str, Error,
}
use po_c_sqlagent.Composer.{Schema, has_table, text_or, sorted}
use po_c_sqlagent.Analytical.Terms.{plan_error, ident, quoted}
use po_c_sqlagent.Analytical.Tables.{Stages, assign, item}
use po_c_sqlagent.Analytical.Stages.{Compiled}
use po_c_sqlagent.Analytical.Derived.{compile_stage}

abbrev pub stage_types : List String
stage_types =
    "scan" ∷ "filter" ∷ "join" ∷ "aggregate" ∷ "union_all" ∷ "window" ∷ "rank" ∷ "project" ∷ []

-- CompiledPlan.
pub record CompiledPlan : Type 0 where
  pub sql : String
  pub output_columns : List String
  pub grain : List String
  pub stages : List String

-- `stage.get("id") or f"stage_{position}"`.
unfoldable pub stage_id : ℕ → Fields → String
unfolding text_or show_nat
stage_id position stage = text_or "id" ("stage_" ++ show_nat position) stage

-- One stage of either compiler: its id and what it compiles to.
unfoldable pub checked_stage :
    Schema → (String → String → String) → ℕ → Fields → Stages → Stages → Py (String × Compiled)
unfolding stage_id text_or ident member compile_stage
checked_stage schema known position stage outputs grains = do
  let id = stage_id position stage
  let kind = text_or "type" "" stage
  name ← ident id
  guard (member kind stage_types) (plan_error ("unsupported stage type " ++ repr_str kind))
  compiled ← compile_stage schema known kind stage outputs grains
  ok (id, compiled)

abbrev no_object : Error
no_object = plan_error "each stage must be an object"

-- The loop over the stages: the CTEs, the outputs and the grains.
unfoldable pub compile_stages :
    Schema
    → (String → String → String)
    → ℕ
    → List Value
    → Stages
    → Stages
    → Py (List String × Stages × Stages)
unfolding checked_stage assign quoted
compile_stages schema known position [] outputs grains = ok ([], outputs, grains)
compile_stages schema known position (dict stage ∷ vs) outputs grains = do
  (id, (sql, columns, grain)) ← checked_stage schema known position stage outputs grains
  let cte = quoted id ++ (" AS (" ++ (sql ++ ")"))
  (ctes, outputs', grains') ←
      compile_stages schema known (position + 1) vs (assign id columns outputs)
        (assign id grain grains)
  ok (cte ∷ ctes, outputs', grains')
compile_stages schema known position (v ∷ vs) outputs grains = err no_object

-- `raw_stages[-1].get("id")`: by now every stage is an object.
unfoldable pub last_id : List Value → Value
unfolding get
last_id [] = null
last_id (dict stage ∷ []) = get "id" stage
last_id (v ∷ vs) = last_id vs

-- `str(plan.get("output") or raw_stages[-1].get("id") or f"stage_{len(raw_stages)}")`.
unfoldable pub final_id : Fields → List Value → String
unfolding show either get last_id show_nat
final_id plan stages = show (
    either (get "output" plan)
      (either (last_id stages) (str ("stage_" ++ show_nat (length stages)))))

abbrev pub key : String × List String → String
key p = p.0

unfoldable pub with_query : List String → String → String
unfolding join
with_query ctes final = "WITH " ++ (join ",\n" ctes ++ ("\nSELECT * FROM " ++ final))

unfoldable pub compile_list :
    Schema → (String → String → String) → Fields → List Value → Py CompiledPlan
unfolding compile_stages final_id has_table repr_str ident item with_query sorted
compile_list schema known plan stages = do
  (ctes, outputs, grains) ← compile_stages schema known 1 stages [] []
  let final = final_id plan stages
  guard (has_table outputs final) (plan_error ("unknown output stage " ++ repr_str final))
  from ← ident final
  columns ← item final outputs
  grain ← item final grains
  ok (record {
    sql = with_query ctes from;
    output_columns = sorted columns;
    grain = grain;
    stages = map key outputs;
  })

abbrev requires_stages : Error
requires_stages = plan_error "analytical plan requires stages"

-- `plan.get("stages")` has to be a list that is not empty.
unfoldable pub compile_plan : Schema → (String → String → String) → Fields → Value → Py CompiledPlan
unfolding compile_list to_list
compile_plan schema known plan (list (cons v vs)) = compile_list schema known plan (v ∷ to_list vs)
compile_plan schema known plan _ = err requires_stages

unfoldable pub compile : Schema → (String → String → String) → Fields → Py CompiledPlan
unfolding compile_plan get
compile schema known plan = compile_plan schema known plan (get "stages" plan)

abbrev pub no_cardinality : String → String → String
no_cardinality left right = ""

-- compile_analytical_plan, without declared cardinalities.
unfoldable pub compile_analytical_plan : Schema → Fields → Py CompiledPlan
unfolding compile
compile_analytical_plan schema plan = compile schema no_cardinality plan

abbrev pub complex_terms : List String
complex_terms =
    "cohort" ∷ "retention" ∷ "pareto" ∷ "cumulative" ∷ "running total" ∷ "rank" ∷ "window" ∷ "union"
    ∷ "period over period" ∷ "year over year" ∷ "month over month" ∷ "когорт" ∷ "удержан" ∷ "парето"
    ∷ "накоп" ∷ "ранж" ∷ "сравн" ∷ "период" ∷ []

unfoldable pub is_complex_question : String → Bool
unfolding contains_any lower
is_complex_question question = contains_any complex_terms (lower question)
