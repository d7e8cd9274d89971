-- ===== src/QueryAgent/Graph.antt =====
-- sqlagent/query_agent/graph.py, QueryAgent.run: the nodes, the edges and the run under the
-- recursion limit of LangGraph, which counts one step for each node that runs.
use po_c_sqlagent.Base.{
  ℕ, zero, suc, ◌+◌, ◌*◌, String, false, Option, none, some, [], ok, err, if◌then◌else◌,
}
use po_c_sqlagent.Python.{null, Error, Py}
use po_c_sqlagent.QueryAgent.State.{State, Services}
use po_c_sqlagent.QueryAgent.Repair.{react_repair}
use po_c_sqlagent.QueryAgent.Nodes.{
  has_error, router, loader, telemetry, planner, sql_generator, validator, explainer, executor,
  invariants, critic, optimizer, persist,
}

pub data Node : Type 0 where
  at_router at_loader at_telemetry at_planner at_sql_generator at_validator at_explain_gate : Node
  at_react_repair at_execute at_invariant_check at_critic at_optimizer at_persist : Node

unfoldable pub run_node : Services → Node → State → Py State
unfolding router loader telemetry planner sql_generator validator explainer react_repair executor
    invariants critic optimizer persist
run_node sv at_router s = router sv s
run_node sv at_loader s = loader sv s
run_node sv at_telemetry s = telemetry sv s
run_node sv at_planner s = ok (planner sv s)
run_node sv at_sql_generator s = sql_generator sv s
run_node sv at_validator s = validator sv s
run_node sv at_explain_gate s = ok (explainer sv s)
run_node sv at_react_repair s = react_repair sv s
run_node sv at_execute s = ok (executor sv s)
run_node sv at_invariant_check s = invariants sv s
run_node sv at_critic s = critic sv s
run_node sv at_optimizer s = optimizer sv s
run_node sv at_persist s = persist sv s

-- The edges; none is the end.
unfoldable pub next_node : Node → State → Option Node
next_node at_router s = some at_loader
next_node at_loader s = some at_telemetry
next_node at_telemetry s = some at_planner
next_node at_planner s = some (if s.clarification_requested then at_persist else at_sql_generator)
next_node at_sql_generator s = some at_validator
next_node at_validator s = some (if has_error s then at_react_repair else at_explain_gate)
next_node at_explain_gate s = some (if has_error s then at_react_repair else at_execute)
next_node at_react_repair s = some (
    if s.react_repair_ready
    then at_validator
    else if s.react_retry
    then at_react_repair
    else at_persist)
next_node at_execute s = some (if has_error s then at_react_repair else at_invariant_check)
next_node at_invariant_check s = some at_critic
next_node at_critic s = some (if s.critic_rejected then at_react_repair else at_optimizer)
next_node at_optimizer s = some at_persist
next_node at_persist s = none

-- A run ends with a state, with an exception of a node, or at the recursion limit.
pub data Outcome : Type 0 where
  finished : State → Outcome
  raised : Error → Outcome
  limit_reached : Outcome

unfoldable pub enter : (Node → State → Outcome) → Option Node → State → Outcome
enter go none s = finished s
enter go (some n) s = go n s

unfoldable pub go_on : (Node → State → Outcome) → Node → Py State → Outcome
unfolding enter next_node
go_on go n (err e) = raised e
go_on go n (ok s) = enter go (next_node n s) s

unfoldable pub run : Services → ℕ → Node → State → Outcome
unfolding run_node go_on
run sv zero n s = limit_reached
run sv (suc k) n s = go_on (run sv k) n (run_node sv n s)

-- The limit that the code sets for its two budgets.
unfoldable pub recursion_limit_for_attempts : ℕ → ℕ → ℕ
recursion_limit_for_attempts attempts optimize_passes = 16 + attempts * 6 + optimize_passes * 2

abbrev pub start : String → State
start question = record {
  question = question;
  route = "";
  template = "";
  selected_files = [];
  loaded_files = [];
  plan = "";
  clarification = "";
  clarification_requested = false;
  sql = none;
  spec = none;
  explain = null;
  result = null;
  invariants = null;
  critic = null;
  critic_rejected = false;
  error = "";
  llm_used = false;
  react_attempts = 0;
  react_steps = [];
  react_repair_ready = false;
  react_retry = false;
  schema_scope = [];
  scratch_stages = [];
  scratch_final = "";
}

-- `graph.compile().invoke(...)`.
unfoldable pub answer : Services → String → Outcome
unfolding run recursion_limit_for_attempts
answer sv question =
    run sv (recursion_limit_for_attempts sv.max_attempts sv.optimize_passes) at_router
      (start question)
