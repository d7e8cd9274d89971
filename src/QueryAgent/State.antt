-- ===== src/QueryAgent/State.antt =====
-- sqlagent/query_agent/graph.py: QueryState, and the services that the nodes call.
use po_c_sqlagent.Base.{ℕ, String, Bool, Option, List}
use po_c_sqlagent.Python.{Value, Fields, Error, Py}
use po_c_sqlagent.Composer.{Schema}

-- A missing text is "", which the code takes for the same: it tests these keys by their truth. The
-- keys `sql` and `spec` are told apart from missing ones.
pub record State : Type 0 where
  pub question : String
  pub route : String
  pub template : String
  pub selected_files : List String
  pub loaded_files : List (String × String)
  pub plan : String
  pub clarification : String
  pub clarification_requested : Bool
  pub sql : Option String
  pub spec : Option Fields
  pub explain : Value
  pub result : Value
  pub invariants : Value
  pub critic : Value
  pub critic_rejected : Bool
  pub error : String
  pub llm_used : Bool
  pub react_attempts : ℕ
  pub react_steps : List Value
  pub react_repair_ready : Bool
  pub react_retry : Bool
  pub schema_scope : List String
  pub scratch_stages : List String
  pub scratch_final : String

-- The places where the model is asked.
pub data Call : Type 0 where
  choose_tables free_form repair_plan repair_sql criticise : Call
  decompose expand : (scope : List String) → Call

-- What sql_generator adds to the state.
pub record Generated : Type 0 where
  pub sql : Option String
  pub spec : Option Fields
  pub error : String
  pub llm_used : Bool
  pub schema_scope : List String
  pub scratch_stages : List String
  pub scratch_final : String

-- What optimizer adds to the state beside its steps when it adopts a rewrite.
pub record Optimized : Type 0 where
  pub sql : String
  pub explain : Value
  pub result : Value

-- The workspace, the model, the database and the settings, as far as the nodes call them.
pub record Services : Type 0 where
  pub max_attempts : ℕ
  pub optimize_passes : ℕ
  pub has_llm : Bool
  pub has_dsn : Bool
  pub schema : Schema
  pub route_question : String → Py (String × List String × String)
  pub load : State → Py (List (String × String))
  pub known_metrics : Py (List String)
  pub template_path : String → Py String
  pub domain_tables : State → Option (List String)
  pub is_complex_question : String → Bool
  pub select_analytical_candidate : State → Py (Fields × String)
  pub chat_json : Call → State → Py Value
  pub compile_analytical : Fields → Py String
  pub compile_scratch : Fields → Py (List String × String)
  pub format_sql : String → String
  pub statements : String → ℕ
  pub lint_sql : String → List String
  pub explain : String → Py Value
  pub execute : String → Py Value
  pub execute_scratch : List String → String → Py Value
  pub check_invariants : Value → Py Value
  pub optimize : State → Py (List Value × Option Optimized)
  pub save : State → Py (Unit {0})
  pub clean_sql : String → String
  pub str_exc : Error → String
  pub same_plan : Fields → Fields → Bool
