-- ===== src/QueryAgent/Tests.antt =====
-- A run of the agent over a small database, and the theorems at it.
use po_c_sqlagent.Base.{String, true, false, ◌≡◌, refl, none, [], err, ◌∷◌, ok}
use po_c_sqlagent.Python.{type_error, dict, null, end}
use po_c_sqlagent.Composer.{Schema}
use po_c_sqlagent.Database.{validate_read_only}
use po_c_sqlagent.QueryAgent.State.{State, Services}
use po_c_sqlagent.QueryAgent.Graph.{
  at_persist, at_sql_generator, at_execute, run_node, next_node, answer,
}
use po_c_sqlagent.QueryAgent.Response.{status}
use po_c_sqlagent.QueryAgent.Acceptance.{IsAccepted, answered-IsAccepted}
use po_c_sqlagent.QueryAgent.Budget.{Ends, answer-Ends}
use po_c_sqlagent.QueryAgent.Safety.{Reached, begun, moved, IsChecked, execute-IsChecked}

abbrev sales : Schema
sales = ("sales", "region" ∷ "amount" ∷ []) ∷ []

abbrev sales_sql : String
sales_sql = "SELECT region FROM sales;"

-- The template of the question is a query; the critic accepts it.
abbrev demo : Services
demo = record {
  max_attempts = 2;
  optimize_passes = 1;
  has_llm = true;
  has_dsn = true;
  schema = sales;
  route_question = λ q. ok ("sales", [], "regions");
  load = λ s. ok (("templates/regions.sql", sales_sql) ∷ []);
  known_metrics = ok [];
  template_path = λ t. ok "templates/regions.sql";
  domain_tables = λ s. none;
  is_complex_question = λ q. false;
  select_analytical_candidate = λ s. err type_error;
  chat_json = λ c s. ok (dict end);
  compile_analytical = λ p. ok "";
  compile_scratch = λ p. ok ([], "");
  format_sql = λ q. q;
  statements = λ q. 1;
  lint_sql = λ q. [];
  explain = λ q. ok null;
  execute = λ q. ok (dict end);
  execute_scratch = λ stages final. ok (dict end);
  check_invariants = λ r. ok (dict end);
  optimize = λ s. ok ([], none);
  save = λ s. ok tt;
  clean_sql = λ q. q;
  str_exc = λ e. "";
  same_plan = λ a b. false;
}

agent_runs : Unit {0}
unfolding run_node next_node validate_read_only status
agent_runs = tt

answer-Ends_example : Ends (answer demo "Which regions are there?")
answer-Ends_example = answer-Ends demo "Which regions are there?"

sales_sql_passes : validate_read_only (λ q. q) (λ q. 1) [] sales_sql ≡ ok "SELECT region FROM sales"
unfolding validate_read_only
sales_sql_passes = refl

abbrev question : String
question = "Which regions are there?"

reached_generator : (s : State) × Reached demo question at_sql_generator s
unfolding agent_runs
reached_generator = (_, moved (moved (moved (moved begun refl refl) refl refl) refl refl) refl refl)

reached_execute : (s : State) × Reached demo question at_execute s
unfolding agent_runs reached_generator
reached_execute = (_, moved (moved (moved reached_generator.1 refl refl) refl refl) refl refl)

execute-IsChecked_example : IsChecked demo reached_execute.0
execute-IsChecked_example = execute-IsChecked demo question reached_execute.0 reached_execute.1

reached_persist : (s : State) × Reached demo question at_persist s
unfolding agent_runs reached_execute reached_generator
reached_persist =
    (_, moved (moved (moved (moved reached_execute.1 refl refl) refl refl) refl refl) refl refl)

persist_answered : status reached_persist.0 ≡ "answered"
unfolding agent_runs reached_persist reached_execute reached_generator
persist_answered = refl

answered-IsAccepted_example : IsAccepted demo question reached_persist.0
answered-IsAccepted_example =
    answered-IsAccepted demo question reached_persist.0 reached_persist.1 persist_answered
