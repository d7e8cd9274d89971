-- ===== src/Evolution/Evolve.antt =====
-- sqlagent/evolution/graph.py: _mutate, run_evolution and evolve_failure. The worktree, the audit
-- file and the commit around the writes are left out.
use po_c_sqlagent.Base.{
  ◌>>=◌, ℕ, String, Bool, Option, none, some, List, [], ◌∷◌, ◌++◌ as append, ok, err, ltb, length,
  if◌then◌else◌,
}
use po_c_sqlagent.Text.{member}
use po_c_sqlagent.Python.{
  Value, str, dict, Fields, end, field, Error, value_error, llm_unavailable, key_error, type_error,
  Py, get,
}
use po_c_sqlagent.Composer.{text_or}
use po_c_sqlagent.Evolution.Surface.{max_mutation_files, cluster, attribute, latest, error_type_of}
use po_c_sqlagent.Evolution.Mutation.{Writing, Skill, llm_mutation, fallback_mutation}

abbrev pub incident_types : List String
incident_types =
    "llm_timeout" ∷ "llm_transport_error" ∷ "explain_timeout" ∷ "execution_timeout" ∷ "db_error"
    ∷ "serialization_failed" ∷ []

-- `except (LLMUnavailable, ValueError, QuerySafetyError, KeyError, TypeError): changed = []`; the
-- files that were written stay.
unfoldable pub recovered : Writing (List String) → Writing (List String)
recovered (writes, ok changed) = (writes, ok changed)
recovered (writes, err (value_error m)) = (writes, ok [])
recovered (writes, err (llm_unavailable m)) = (writes, ok [])
recovered (writes, err key_error) = (writes, ok [])
recovered (writes, err type_error) = (writes, ok [])
recovered (writes, err e) = (writes, err e)

-- The answer of the model, where there is one; an exception of the call is one of the answers.
unfoldable pub proposed : Skill → String → Option (Py Value) → Writing (List String)
unfolding recovered llm_mutation
proposed skill surface none = ([], ok [])
proposed skill surface (some answer) = recovered (llm_mutation skill surface answer)

abbrev pub too_many : Error
too_many = value_error "one hypothesis may change no more than three skill files"

abbrev pub at_most_three : Writing (List String) → Writing (List String)
at_most_three (writes, ok changed) =
    if ltb max_mutation_files (length changed) then (writes, err too_many) else (writes, ok changed)
at_most_three (writes, err e) = (writes, err e)

-- `if not changed: changed = _fallback_mutation(workspace, surface)`.
unfoldable pub or_fallback : Writing (List String) → Writing (List String) → Writing (List String)
or_fallback (writes, ok []) (more, result) = (append writes more, result)
or_fallback (writes, ok (p ∷ ps)) fallback = (writes, ok (p ∷ ps))
or_fallback (writes, err e) fallback = (writes, err e)

unfoldable pub mutate : Skill → String → Option (Py Value) → Writing (List String)
unfolding or_fallback proposed fallback_mutation
mutate skill surface answer =
    let first = proposed skill surface answer in
    at_most_three (or_fallback first (fallback_mutation skill surface first.0))

-- What the learner hears of a failure.
pub data Evolved : Type 0 where
  insufficient : (count required : ℕ) → Evolved
  incident_recorded : (request_id error_type : String) → Evolved
  candidate_created : (surface reason : String) (changed : List String) → Evolved

abbrev pub created : String × String → Writing (List String) → Writing Evolved
created (surface, reason) (writes, ok changed) =
    (writes, ok (candidate_created surface reason changed))
created why (writes, err e) = (writes, err e)

abbrev pub decided : Py (String × String) → (String × String → Writing Evolved) → Writing Evolved
decided (ok why) next = next why
decided (err e) next = ([], err e)

-- cluster, attribute and mutate, one after the other.
unfoldable pub evolved :
    Skill → (Value → Py Bool) → List String → Option (Py Value) → List Fields → Writing Evolved
unfolding cluster attribute mutate
evolved skill is_slow dangerous answer trajectories =
    decided (cluster is_slow dangerous trajectories >>= λ c. attribute c trajectories)
      λ why. created why (mutate skill why.0 answer)

unfoldable pub trajectory_of : String → String → Fields → Fields
unfolding get
trajectory_of request_id error_type payload = field "request_id" (str request_id) (
    field "question" (get "question" payload) (
      field "error" (get "message" payload) (
        field "error_info" (dict (field "type" (str error_type) end))
          (field "telemetry" (get "telemetry" payload) end))))

unfoldable pub evolve_failure :
    Skill
    → (Value → Py Bool)
    → List String
    → Option (Py Value)
    → (request_id error_type : String) → Fields
    → Writing Evolved
unfolding evolved trajectory_of member
evolve_failure skill is_slow dangerous answer request_id error_type payload =
    if member error_type incident_types
    then ([], ok (incident_recorded request_id error_type))
    else evolved skill is_slow dangerous answer (trajectory_of request_id error_type payload ∷ [])

abbrev pub on_type : Py String → (String → Writing Evolved) → Writing Evolved
on_type (ok error_type) next = next error_type
on_type (err e) next = ([], err e)

-- `fresh` is the identifier that stands in for a missing one.
unfoldable pub run_evolution :
    Skill
    → (Value → Py Bool)
    → List String
    → Option (Py Value)
    → (fresh : String) → (min_trajectories : ℕ) → List Fields
    → Writing Evolved
unfolding evolved latest error_type_of text_or member
run_evolution skill is_slow dangerous answer fresh min_trajectories trajectories =
    if ltb (length trajectories) min_trajectories
    then ([], ok (insufficient (length trajectories) min_trajectories))
    else on_type (error_type_of (latest trajectories)) λ error_type.
      if member error_type incident_types
      then (
        [],
        ok (incident_recorded (text_or "request_id" fresh (latest trajectories)) error_type),
      )
      else evolved skill is_slow dangerous answer trajectories
