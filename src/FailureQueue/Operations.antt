-- ===== src/FailureQueue/Operations.antt =====
-- sqlagent/failure_queue.py: enqueue, claim, finish and get. The clock's answers and the fresh
-- identifiers are arguments.
use po_c_sqlagent.Base.{
  ℕ, ◌+◌, String, Bool, false, ◌&&◌, ◌||◌, Option, none, some, List, [], ◌∷◌, ◌++◌, ltb, ok, err,
  if◌then◌else◌,
}
use po_c_sqlagent.Text.{◌=ₛ◌, member}
use po_c_sqlagent.Python.{Value, str, dict, Fields, end, field, Py, value_error}
use po_c_sqlagent.FailureQueue.Table.{
  Status, pending, running, completed, rejected, failed, incident, Job, Incident, Queue,
  infra_error_types, is_active, is_running, update_where, first_where, oldest_pending,
}

-- The arguments of enqueue. `fingerprint` is what failure_fingerprint makes of the error type, the
-- stage and the message.
pub record Failure : Type 0 where
  pub request_id : String
  pub error_type : String
  pub stage : String
  pub message : String
  pub payload : Fields
  pub surface : Option String
  pub fingerprint : String

-- `{"stage": stage, "message": message, **payload}`: a key of the payload replaces one before it.
has_key : String → Fields → Bool
has_key k end = false
has_key k (field j v fs) = j =ₛ k || has_key k fs

default_field : String → Value → Fields → Fields
unfolding has_key
default_field k v fs = if has_key k fs then fs else field k v fs

unfoldable pub document : Failure → Value
unfolding default_field
document f =
    dict (default_field "stage" (str f.stage) (default_field "message" (str f.message) f.payload))

abbrev pub holds : String → Job → Bool
holds fingerprint j = j.fingerprint =ₛ fingerprint && is_active j.status

-- A row of the same failure counts one more occurrence.
abbrev pub recur : ℕ → Job → Job
recur now j = record j { occurrence_count = j.occurrence_count + 1; updated_at = now }

unfoldable pub is_infra : String → Bool
unfolding member
is_infra t = member t infra_error_types

unfoldable pub new_job : String → ℕ → Failure → Job
unfolding document
new_job job_id now f = record {
  id = job_id;
  request_id = f.request_id;
  fingerprint = f.fingerprint;
  error_type = f.error_type;
  surface = f.surface;
  status = pending;
  occurrence_count = 1;
  payload = document f;
  created_at = now;
  updated_at = now;
  result = none;
}

unfoldable pub new_incident : String → ℕ → Failure → Incident
unfolding document
new_incident incident_id now f = record {
  id = incident_id;
  request_id = f.request_id;
  fingerprint = f.fingerprint;
  error_type = f.error_type;
  payload = document f;
  created_at = now;
}

abbrev pub set_status : Status → ℕ → Job → Job
set_status s now j = record j { status = s; updated_at = now }

-- The row of a new failure; an infrastructure error also gets an incident, and its row is closed.
unfoldable pub insert_job : String → String → ℕ → Failure → Queue → Queue
unfolding new_job new_incident update_where is_infra
insert_job job_id incident_id now f q =
    let jobs = q.jobs ++ new_job job_id now f ∷ [] in
    if is_infra f.error_type
    then record {
      jobs = update_where (λ j. j.id =ₛ job_id) (set_status incident now) jobs;
      incidents = q.incidents ++ new_incident incident_id now f ∷ [];
    }
    else record q { jobs = jobs }

-- What enqueue does once it knows the open row of the fingerprint.
unfoldable pub record_failure : String → String → ℕ → Failure → Queue → Option Job → Queue × String
unfolding insert_job update_where
record_failure job_id incident_id now f q (some active) =
    (record q { jobs = update_where (λ j. j.id =ₛ active.id) (recur now) q.jobs }, active.id)
record_failure job_id incident_id now f q none = (insert_job job_id incident_id now f q, job_id)

unfoldable pub enqueue : String → String → ℕ → Failure → Queue → Queue × String
unfolding record_failure first_where
enqueue job_id incident_id now f q =
    record_failure job_id incident_id now f q (first_where (holds f.fingerprint) q.jobs)

-- `status = 'running' AND updated_at < now - stale_after_s`.
abbrev pub is_stale : ℕ → ℕ → Job → Bool
is_stale stale_after now j = is_running j.status && ltb (j.updated_at + stale_after) now

unfoldable pub requeue_stale : ℕ → ℕ → ℕ → List Job → List Job
unfolding update_where
requeue_stale stale_after now now' jobs =
    update_where (is_stale stale_after now') (set_status pending now) jobs

-- The claimed row becomes the running one.
unfoldable pub take_row : ℕ → Queue → Option Job → Queue × Option Job
unfolding update_where
take_row now q none = (q, none)
take_row now q (some row) = (
  record q { jobs = update_where (λ j. j.id =ₛ row.id) (set_status running now) q.jobs },
  some (record row { status = running }),
)

-- The clock is read for the rows requeued, for their deadline, and for the row claimed.
unfoldable pub claim : ℕ → ℕ → ℕ → ℕ → Queue → Queue × Option Job
unfolding requeue_stale take_row oldest_pending
claim stale_after now now' now'' q =
    let jobs = requeue_stale stale_after now now' q.jobs in
    take_row now'' (record q { jobs = jobs }) (oldest_pending jobs)

-- `status not in {"completed", "rejected", "failed"}` is a ValueError.
unfoldable pub terminal : String → Option Status
terminal s =
    if s =ₛ "completed"
    then some completed
    else if s =ₛ "rejected"
    then some rejected
    else if s =ₛ "failed"
    then some failed
    else none

abbrev pub close : Status → Value → ℕ → Job → Job
close s v now j = record j { status = s; result = some v; updated_at = now }

unfoldable pub finish_as : Option Status → String → Value → ℕ → Queue → Py Queue
unfolding update_where
finish_as none job_id v now q = err (value_error "invalid terminal failure-job status")
finish_as (some s) job_id v now q =
    ok (record q { jobs = update_where (λ j. j.id =ₛ job_id) (close s v now) q.jobs })

unfoldable pub finish : String → String → Value → ℕ → Queue → Py Queue
unfolding terminal finish_as
finish job_id status v now q = finish_as (terminal status) job_id v now q

unfoldable pub get_job : String → Queue → Option Job
unfolding first_where
get_job job_id q = first_where (λ j. j.id =ₛ job_id) q.jobs
