-- ===== src/QueryAgent/Response.antt =====
-- sqlagent/query_agent/graph.py, QueryAgent.run: the status of the response and the stage of its
-- error.
use po_c_sqlagent.Base.{String, not, Option, none, some, List, [], ◌∷◌, if◌then◌else◌}
use po_c_sqlagent.Text.{◌=ₛ◌, starts_with, lower}
use po_c_sqlagent.Errors.{AgentError, classify_error, text}
use po_c_sqlagent.QueryAgent.State.{State}
use po_c_sqlagent.QueryAgent.Nodes.{has_error}

unfoldable pub status : State → String
status s =
    if not (s.clarification =ₛ "")
    then "clarified"
    else if has_error s
    then "pipeline_failed"
    else "answered"

abbrev pub error_stages : List (String × String)
error_stages =
    ("sql generation", "llm_generation")
    ∷ ("query plan assembly", "plan")
    ∷ ("lint", "validation")
    ∷ ("explain", "explain")
    ∷ ("execution", "execution")
    ∷ ("critic", "critic")
    ∷ ("react", "react")
    ∷ []

stage_among : String → List (String × String) → String
unfolding starts_with
stage_among lowered [] = "internal"
stage_among lowered ((prefix, stage) ∷ rest) =
    if starts_with lowered prefix then stage else stage_among lowered rest

unfoldable pub error_info : State → Option AgentError
unfolding stage_among lower classify_error
error_info s =
    if has_error s
    then some (classify_error (text s.error) (stage_among (lower s.error) error_stages) none)
    else none
