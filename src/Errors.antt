-- ===== src/Errors.antt =====
-- sqlagent/errors.py: the error types, and their classification from a message and a stage.
mod Retry
mod Tests
use po_c_sqlagent.Base.{
  String, Bool, true, false, ◌&&◌, ◌||◌, Option, none, some, List, [], ◌∷◌, if◌then◌else◌,
}
use po_c_sqlagent.Text.{contains, starts_with, lower, member, truncate, ◌=ₛ◌}

pub data ErrorType : Type 0 where
  llm_timeout llm_transport_error llm_invalid_json llm_schema_violation : ErrorType
  schema_selection_failed plan_assembly_failed sql_validation_failed : ErrorType
  explain_timeout execution_timeout db_error critic_rejected react_exhausted : ErrorType
  langgraph_recursion serialization_failed workspace_error internal_error : ErrorType

-- `error_type.value`.
unfoldable pub value : ErrorType → String
value llm_timeout = "llm_timeout"
value llm_transport_error = "llm_transport_error"
value llm_invalid_json = "llm_invalid_json"
value llm_schema_violation = "llm_schema_violation"
value schema_selection_failed = "schema_selection_failed"
value plan_assembly_failed = "plan_assembly_failed"
value sql_validation_failed = "sql_validation_failed"
value explain_timeout = "explain_timeout"
value execution_timeout = "execution_timeout"
value db_error = "db_error"
value critic_rejected = "critic_rejected"
value react_exhausted = "react_exhausted"
value langgraph_recursion = "langgraph_recursion"
value serialization_failed = "serialization_failed"
value workspace_error = "workspace_error"
value internal_error = "internal_error"

-- `error_type in RETRYABLE_ERRORS`.
unfoldable pub is_retryable : ErrorType → Bool
is_retryable llm_timeout = true
is_retryable llm_transport_error = true
is_retryable explain_timeout = true
is_retryable execution_timeout = true
is_retryable db_error = true
is_retryable serialization_failed = true
is_retryable _ = false

pub record AgentError : Type 0 where
  pub type : ErrorType
  pub stage : String
  pub retryable : Bool
  pub message : String
  pub sqlstate : Option String
  pub learning_job_id : Option String

-- The last tests of the ladder: the stage alone.
type_for_stage : String → ErrorType
unfolding starts_with member
type_for_stage stage =
    if starts_with stage "llm"
    then llm_transport_error
    else if member stage ("execute" ∷ "execution" ∷ "explain" ∷ "db" ∷ [])
    then db_error
    else internal_error

-- "timeout" or "timed out" in the text: the three timeouts, or the last tests.
type_for_timeout : String → String → ErrorType
unfolding type_for_stage starts_with contains member
type_for_timeout text stage =
    if starts_with stage "llm" || contains "model" text
    then llm_timeout
    else if starts_with stage "explain"
    then explain_timeout
    else if member stage ("execute" ∷ "execution" ∷ "db" ∷ [])
    then execution_timeout
    else type_for_stage stage

-- The ladder over the lowered text.
type_for_text : String → String → ErrorType
unfolding type_for_timeout type_for_stage contains
type_for_text text stage =
    if contains "schema selection" text
    then schema_selection_failed
    else if contains "schema violation" text
    then llm_schema_violation
    else if contains "invalid json" text || contains "jsondecode" text
    then llm_invalid_json
    else if contains "serialization" text || stage =ₛ "serialization"
    then serialization_failed
    else if stage =ₛ "workspace" || contains "workspace" text
    then workspace_error
    else if contains "recursion" text
    then langgraph_recursion
    else if contains "budget exhausted" text
    then react_exhausted
    else if contains "critic rejected" text
    then critic_rejected
    else if contains "assembly failed" text || contains "plan assembly" text
    then plan_assembly_failed
    else if contains "lint failed" text || (contains "read-only" text || contains "only read" text)
    then sql_validation_failed
    else if contains "json" text
        && (contains "invalid" text || (contains "decode" text || contains "did not return" text))
    then llm_invalid_json
    else if contains "schema" text && (contains "validation" text || contains "violation" text)
    then llm_schema_violation
    else if contains "timeout" text || contains "timed out" text
    then type_for_timeout text stage
    else type_for_stage stage

unfoldable pub error_type_for_message : String → String → ErrorType
unfolding type_for_text lower
error_type_for_message message stage = type_for_text (lower message) stage

-- What `classify_error` reads of its argument: a text, or an exception with its class name, its
-- `str` and its `sqlstate` attribute.
pub data Raised : Type 0 where
  text : String → Raised
  exception : (class_name message : String) (sqlstate : Option String) → Raised

abbrev pub message_of : Raised → String
message_of (text m) = m
message_of (exception c m s) = m

abbrev class_of : Raised → String
class_of (text m) = ""
class_of (exception c m s) = lower c

-- `str(sqlstate) if sqlstate else None`.
abbrev sqlstate_of : Raised → Option String
sqlstate_of (text m) = none
sqlstate_of (exception c m none) = none
sqlstate_of (exception c m (some s)) = if s =ₛ "" then none else some s

classified_type : Raised → String → ErrorType
unfolding error_type_for_message contains starts_with
classified_type exc stage =
    if contains "timeout" (class_of exc)
    then error_type_for_message "timeout" stage
    else if contains "schema" (class_of exc) && starts_with stage "llm"
    then llm_schema_violation
    else if contains "json" (class_of exc) && starts_with stage "llm"
    then llm_invalid_json
    else error_type_for_message (message_of exc) stage

unfoldable pub classify_error : Raised → String → Option String → AgentError
unfolding classified_type truncate is_retryable
classify_error exc stage learning_job_id =
    let type = classified_type exc stage in
    record {
      type = type;
      stage = stage;
      retryable = is_retryable type;
      message = truncate 1000 (message_of exc);
      sqlstate = sqlstate_of exc;
      learning_job_id = learning_job_id;
    }
