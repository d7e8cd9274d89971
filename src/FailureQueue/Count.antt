-- ===== src/FailureQueue/Count.antt =====
-- No occurrence of a failure is lost or counted twice.
use text.Mathlib.TextPositions.{eq_refl}
use po_c_sqlagent.Base.{
  ℕ, ◌+◌, String, ◌≡◌, refl, Option, none, some, [], ◌∷◌, ◌++◌, arith, ok, ok-injective, ap, sym,
  ◌∙◌, inl, inr, Bool-cases,
}
use po_c_sqlagent.Python.{Value}
use po_c_sqlagent.FailureQueue.Table.{
  Status, pending, running, incident, Job, Queue, first_where, oldest_pending,
}
use po_c_sqlagent.FailureQueue.Operations.{
  Failure, record_failure, take_row, finish_as, recur, holds, set_status, close, enqueue,
  insert_job, new_job, requeue_stale, is_stale, claim, finish, terminal, is_infra,
}
use po_c_sqlagent.FailureQueue.Updates.{
  first_where-some, In-count_where, occurrences, occurrences-append, occurrences-one,
  occurrences-update,
}
use po_c_sqlagent.FailureQueue.Keys.{named, IsKeyed}

new_job-occurrences :
    (id : String) (now : ℕ) (f : Failure) → occurrences (new_job id now f ∷ []) ≡ 1
unfolding new_job
new_job-occurrences id now f = occurrences-one (new_job id now f)

insert_job-occurrences :
    (id incident_id : String) (now : ℕ) (f : Failure) (q : Queue)
    → occurrences (insert_job id incident_id now f q).jobs ≡ occurrences q.jobs + 1
unfolding insert_job
insert_job-occurrences id incident_id now f q =
    let jobs = q.jobs ++ new_job id now f ∷ [] in
    let appended : occurrences jobs ≡ occurrences q.jobs + 1 =
      omega
        (arith, occurrences-append q.jobs (new_job id now f ∷ []), new_job-occurrences id now f) in
    elim (Bool-cases (is_infra f.error_type)) [
      | inl infra ↦ rw infra (
          omega (
            arith,
            appended,
            occurrences-update (named id) (set_status incident now) 0 jobs (λ j. omega arith),
          ))
      | inr skill ↦ rw skill appended
    ]

record_failure-occurrences :
    (id incident_id : String) (now : ℕ) (f : Failure) (q : Queue) (o : Option Job)
    → first_where (holds f.fingerprint) q.jobs ≡ o
    → IsKeyed q
    → occurrences (record_failure id incident_id now f q o).0.jobs ≡ occurrences q.jobs + 1
unfolding record_failure
record_failure-occurrences id incident_id now f q none e k =
    insert_job-occurrences id incident_id now f q
record_failure-occurrences id incident_id now f q (some active) e k =
    let (m, _) = first_where-some (holds f.fingerprint) q.jobs active e in
    omega (
      arith,
      occurrences-update (named active.id) (recur now) 1 q.jobs (λ j. refl),
      k.key active.id,
      In-count_where (named active.id) q.jobs active m (eq_refl active.id),
    )

-- Where identifiers are unique, each reported failure adds exactly one occurrence, whether it makes
-- a new row or meets an open one.
pub enqueue-occurrences :
    (id incident_id : String) (now : ℕ) (f : Failure) (q : Queue)
    → IsKeyed q
    → occurrences (enqueue id incident_id now f q).0.jobs ≡ occurrences q.jobs + 1
unfolding enqueue
enqueue-occurrences id incident_id now f q k =
    record_failure-occurrences id incident_id now f q (first_where (holds f.fingerprint) q.jobs)
      refl k

take_row-occurrences :
    (now : ℕ) (q : Queue) (o : Option Job)
    → occurrences (take_row now q o).0.jobs ≡ occurrences q.jobs
unfolding take_row
take_row-occurrences now q none = refl
take_row-occurrences now q (some row) =
    omega (
      arith,
      occurrences-update (named row.id) (set_status running now) 0 q.jobs (λ j. omega arith),
    )

-- A claim keeps the number of occurrences.
pub claim-occurrences :
    (stale_after now now' now'' : ℕ) (q : Queue)
    → occurrences (claim stale_after now now' now'' q).0.jobs ≡ occurrences q.jobs
unfolding claim requeue_stale
claim-occurrences stale_after now now' now'' q =
    let jobs = requeue_stale stale_after now now' q.jobs in
    omega (
      arith,
      take_row-occurrences now'' (record q { jobs = jobs }) (oldest_pending jobs),
      occurrences-update (is_stale stale_after now') (set_status pending now) 0 q.jobs
          (λ j. omega arith),
    )

finish_as-occurrences :
    (o : Option Status) (id : String) (v : Value) (now : ℕ) (q q' : Queue)
    → finish_as o id v now q ≡ ok q'
    → occurrences q'.jobs ≡ occurrences q.jobs
unfolding finish_as
finish_as-occurrences none id v now q q' e = absurd (cc e)
finish_as-occurrences (some s) id v now q q' e =
    ap (λ (x : Queue). occurrences x.jobs) (sym (ok-injective e))
    ∙ omega (arith, occurrences-update (named id) (close s v now) 0 q.jobs (λ j. omega arith))

pub finish-occurrences :
    (id status : String) (v : Value) (now : ℕ) (q q' : Queue)
    → finish id status v now q ≡ ok q'
    → occurrences q'.jobs ≡ occurrences q.jobs
unfolding finish
finish-occurrences id status v now q q' e = finish_as-occurrences (terminal status) id v now q q' e
