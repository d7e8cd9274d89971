-- ===== src/Errors/Retry.antt =====
-- sqlagent/errors.py and sqlagent/failure_queue.py name the infrastructure errors twice; how a
-- classified error fares in the queue.
use text.Mathlib.TextPositions.{eq_refl}
use po_c_sqlagent.Base.{
  ℕ, ◌+◌, String, Bool, true, not, ◌≡◌, refl, Option, none, [], ◌∷◌, ◌++◌, List, arith, Bool-cases,
  length, length-append, inl, inr, ap, sym, ◌∙◌, subst,
}
use po_c_sqlagent.Errors.{
  ErrorType, llm_timeout, llm_transport_error, llm_invalid_json, llm_schema_violation,
  schema_selection_failed, plan_assembly_failed, sql_validation_failed, explain_timeout,
  execution_timeout, db_error, critic_rejected, react_exhausted, langgraph_recursion,
  serialization_failed, workspace_error, internal_error, value, is_retryable, Raised,
  classify_error,
}
use po_c_sqlagent.FailureQueue.{
  Job, Queue, Failure, enqueue, record_failure, insert_job, new_job, new_incident, is_infra, holds,
  first_where, update_where, set_status, incident,
}
use po_c_sqlagent.FailureQueue.Updates.{
  count_where, count_where-append, count_where-one, update_where-append, update_where-none, one_if,
  first_where-none,
}
use po_c_sqlagent.FailureQueue.Keys.{named}

-- The errors that may be retried are those whose type the queue takes for infrastructure.
pub is_retryable-is_infra : (t : ErrorType) → is_retryable t ≡ is_infra (value t)
unfolding is_retryable is_infra value
is_retryable-is_infra llm_timeout = refl
is_retryable-is_infra llm_transport_error = refl
is_retryable-is_infra llm_invalid_json = refl
is_retryable-is_infra llm_schema_violation = refl
is_retryable-is_infra schema_selection_failed = refl
is_retryable-is_infra plan_assembly_failed = refl
is_retryable-is_infra sql_validation_failed = refl
is_retryable-is_infra explain_timeout = refl
is_retryable-is_infra execution_timeout = refl
is_retryable-is_infra db_error = refl
is_retryable-is_infra critic_rejected = refl
is_retryable-is_infra react_exhausted = refl
is_retryable-is_infra langgraph_recursion = refl
is_retryable-is_infra serialization_failed = refl
is_retryable-is_infra workspace_error = refl
is_retryable-is_infra internal_error = refl

classify_error-is_infra :
    (exc : Raised) (stage : String) (job : Option String)
    → (classify_error exc stage job).retryable
      ≡ is_infra (value (classify_error exc stage job).type)
unfolding classify_error
classify_error-is_infra exc stage job = is_retryable-is_infra _

-- What one report leaves of its failure: an incident, or one open row.
pub record Reported (q q' : Queue) (fingerprint : String) (retryable : Bool) : Type 0 where
  pub incidents : length q'.incidents ≡ length q.incidents + one_if retryable
  pub open_rows : count_where (holds fingerprint) q'.jobs ≡ one_if (not retryable)

closed_row :
    (id fingerprint : String) (now : ℕ) (new : Job)
    → named id new ≡ true
    → count_where (holds fingerprint) (update_where (named id) (set_status incident now) (new ∷ []))
      ≡ 0
unfolding count_where update_where
closed_row id fingerprint now new hit = ground (arith, hit)

-- A row appended to rows of other identifiers and of no open row of its fingerprint.
appended-rows :
    (id fingerprint : String) (now : ℕ) (new : Job) (jobs : List Job)
    → named id new ≡ true
    → holds fingerprint new ≡ true
    → count_where (named id) jobs ≡ 0
    → count_where (holds fingerprint) jobs ≡ 0
    → (count_where (holds fingerprint) (jobs ++ new ∷ []) ≡ 1)
      × (count_where
            (holds fingerprint)
            (update_where (named id) (set_status incident now) (jobs ++ new ∷ []))
          ≡ 0)
appended-rows id fingerprint now new jobs is_named opens fresh closed = (
  ground (
    arith,
    closed,
    opens,
    count_where-append (holds fingerprint) jobs (new ∷ []),
    count_where-one (holds fingerprint) new,
  ),
  rw update_where-append (
      rw (update_where-none (named id) (set_status incident now) jobs fresh) (
        omega (
          arith,
          closed,
          count_where-append (holds fingerprint) jobs
              (update_where (named id) (set_status incident now) (new ∷ [])),
          closed_row id fingerprint now new is_named,
        ))),
)

new_job-named : (id : String) (now : ℕ) (f : Failure) → named id (new_job id now f) ≡ true
unfolding new_job
new_job-named id now f = eq_refl id

new_job-holds :
    (id : String) (now : ℕ) (f : Failure) → holds f.fingerprint (new_job id now f) ≡ true
unfolding new_job
new_job-holds id now f = rw (eq_refl f.fingerprint) refl

inserted-rows :
    (id : String) (now : ℕ) (f : Failure) (jobs : List Job)
    → count_where (named id) jobs ≡ 0
    → count_where (holds f.fingerprint) jobs ≡ 0
    → (count_where (holds f.fingerprint) (jobs ++ new_job id now f ∷ []) ≡ 1)
      × (count_where
            (holds f.fingerprint)
            (update_where (named id) (set_status incident now) (jobs ++ new_job id now f ∷ []))
          ≡ 0)
inserted-rows id now f jobs fresh closed =
    appended-rows id f.fingerprint now (new_job id now f) jobs (new_job-named id now f)
      (new_job-holds id now f) fresh closed

insert_job-Reported :
    (id incident_id : String) (now : ℕ) (f : Failure) (q : Queue)
    → count_where (named id) q.jobs ≡ 0
    → count_where (holds f.fingerprint) q.jobs ≡ 0
    → Reported q (insert_job id incident_id now f q) f.fingerprint (is_infra f.error_type)
unfolding insert_job
insert_job-Reported id incident_id now f q fresh closed =
    elim (Bool-cases (is_infra f.error_type)) [
      | inl infra ↦ rw infra (record {
        incidents = omega (arith, length-append q.incidents (new_incident incident_id now f ∷ []));
        open_rows = (inserted-rows id now f q.jobs fresh closed).1;
      })
      | inr skill ↦ rw skill (record {
        incidents = omega arith;
        open_rows = (inserted-rows id now f q.jobs fresh closed).0;
      })
    ]

record_failure-Reported :
    (id incident_id : String) (now : ℕ) (f : Failure) (q : Queue)
    → count_where (named id) q.jobs ≡ 0
    → first_where (holds f.fingerprint) q.jobs ≡ none
    → Reported q (enqueue id incident_id now f q).0 f.fingerprint (is_infra f.error_type)
unfolding enqueue record_failure
record_failure-Reported id incident_id now f q fresh closed = rw closed (
    insert_job-Reported id incident_id now f q fresh
      (first_where-none (holds f.fingerprint) q.jobs closed))

-- A failure with the type of a classified error, reported under a fresh identifier while no row of
-- its fingerprint is open: where the error is retryable it leaves one more incident and no open row,
-- else one open row and no incident.
pub classify_error-Reported :
    (exc : Raised) (stage : String) (job : Option String) (id incident_id : String) (now : ℕ)
    (f : Failure) (q : Queue)
    → f.error_type ≡ value (classify_error exc stage job).type
    → count_where (named id) q.jobs ≡ 0
    → first_where (holds f.fingerprint) q.jobs ≡ none
    → Reported q
        (enqueue id incident_id now f q).0
        f.fingerprint
        (classify_error exc stage job).retryable
classify_error-Reported exc stage job id incident_id now f q typed fresh closed =
    subst (Reported q (enqueue id incident_id now f q).0 f.fingerprint)
      (ap is_infra typed ∙ sym (classify_error-is_infra exc stage job))
      (record_failure-Reported id incident_id now f q fresh closed)
