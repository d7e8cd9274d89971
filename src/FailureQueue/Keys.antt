-- ===== src/FailureQueue/Keys.antt =====
-- The primary key of failure_jobs: no two rows have one identifier.
use native.Mathlib.Nat.{le_trans}
use text.Mathlib.TextEquality.{eq_iff}
use po_c_sqlagent.Base.{
  ℕ, ◌≤◌, String, Bool, ◌≡◌, refl, Option, none, some, List, [], ◌∷◌, ◌++◌, arith, ok, ok-injective,
  subst, inl, inr, Bool-cases,
}
use po_c_sqlagent.Text.{◌=ₛ◌}
use po_c_sqlagent.Python.{Value}
use po_c_sqlagent.FailureQueue.Table.{
  Status, pending, running, incident, Job, Queue, update_where, first_where, oldest_pending,
}
use po_c_sqlagent.FailureQueue.Operations.{
  Failure, record_failure, take_row, finish_as, holds, recur, set_status, close, enqueue,
  insert_job, new_job, requeue_stale, is_stale, claim, finish, terminal, is_infra,
}
use po_c_sqlagent.FailureQueue.Updates.{
  count_where, count_where-append, count_where-one, count_where-update_le, one_if,
}

abbrev pub named : String → Job → Bool
named id j = j.id =ₛ id

pub record IsKeyed (q : Queue) : Type 0 where
  pub key : (id : String) → count_where (named id) q.jobs ≤ 1

-- An update that keeps the identifiers keeps the key.
update-le_key :
    (p : Job → Bool) (f : Job → Job) (jobs : List Job) (id : String)
    → ((j : Job) → (f j).id ≡ j.id)
    → count_where (named id) (update_where p f jobs) ≤ count_where (named id) jobs
update-le_key p f jobs id same =
    count_where-update_le (named id) p f jobs (λ j _ _ hit. rw (same j) at hit)

pub requeue_stale-IsKeyed :
    (stale_after now now' : ℕ) (q : Queue)
    → IsKeyed q
    → IsKeyed (record q { jobs = requeue_stale stale_after now now' q.jobs })
unfolding requeue_stale
requeue_stale-IsKeyed stale_after now now' q k = record {
  key = λ id.
      le_trans
        (update-le_key (is_stale stale_after now') (set_status pending now) q.jobs id (λ j. refl))
        (k.key id);
}

take_row-IsKeyed : (now : ℕ) (q : Queue) (o : Option Job) → IsKeyed q → IsKeyed (take_row now q o).0
unfolding take_row
take_row-IsKeyed now q none k = k
take_row-IsKeyed now q (some row) k = record {
  key = λ id.
      le_trans (update-le_key (named row.id) (set_status running now) q.jobs id (λ j. refl))
        (k.key id);
}

pub claim-IsKeyed :
    (stale_after now now' now'' : ℕ) (q : Queue)
    → IsKeyed q
    → IsKeyed (claim stale_after now now' now'' q).0
unfolding claim
claim-IsKeyed stale_after now now' now'' q k =
    take_row-IsKeyed now'' _ (oldest_pending (requeue_stale stale_after now now' q.jobs))
      (requeue_stale-IsKeyed stale_after now now' q k)

finish_as-IsKeyed :
    (o : Option Status) (id : String) (v : Value) (now : ℕ) (q q' : Queue)
    → IsKeyed q
    → finish_as o id v now q ≡ ok q'
    → IsKeyed q'
unfolding finish_as
finish_as-IsKeyed none id v now q q' k h = absurd (cc h)
finish_as-IsKeyed (some s) id v now q q' k h = subst IsKeyed (ok-injective h) (record {
  key = λ i. le_trans (update-le_key (named id) (close s v now) q.jobs i (λ j. refl)) (k.key i);
})

pub finish-IsKeyed :
    (id status : String) (v : Value) (now : ℕ) (q q' : Queue)
    → IsKeyed q
    → finish id status v now q ≡ ok q'
    → IsKeyed q'
unfolding finish
finish-IsKeyed id status v now q q' k h = finish_as-IsKeyed (terminal status) id v now q q' k h

new_job-named :
    (id i : String) (now : ℕ) (f : Failure) → one_if (named i (new_job id now f)) ≡ one_if (id =ₛ i)
unfolding new_job
new_job-named id i now f = refl

appended-le_key :
    (id i : String) (now : ℕ) (f : Failure) (jobs : List Job)
    → count_where (named id) jobs ≡ 0
    → count_where (named i) jobs ≤ 1
    → count_where (named i) (jobs ++ new_job id now f ∷ []) ≤ 1
appended-le_key id i now f jobs fresh h = ground (
  arith,
  count_where-append (named i) jobs (new_job id now f ∷ []),
  count_where-one (named i) (new_job id now f),
  new_job-named id i now f,
  eq_iff id i,
)

insert_job-IsKeyed :
    (id incident_id : String) (now : ℕ) (f : Failure) (q : Queue)
    → count_where (named id) q.jobs ≡ 0
    → IsKeyed q
    → IsKeyed (insert_job id incident_id now f q)
unfolding insert_job
insert_job-IsKeyed id incident_id now f q fresh k = elim (Bool-cases (is_infra f.error_type)) [
  | inl infra ↦ rw infra (record {
    key = λ i.
        le_trans
          (update-le_key (named id) (set_status incident now) (q.jobs ++ new_job id now f ∷ []) i
            (λ j. refl))
          (appended-le_key id i now f q.jobs fresh (k.key i));
  })
  | inr skill ↦ rw skill (record { key = λ i. appended-le_key id i now f q.jobs fresh (k.key i) })
]

record_failure-IsKeyed :
    (id incident_id : String) (now : ℕ) (f : Failure) (q : Queue) (o : Option Job)
    → count_where (named id) q.jobs ≡ 0
    → IsKeyed q
    → IsKeyed (record_failure id incident_id now f q o).0
unfolding record_failure
record_failure-IsKeyed id incident_id now f q none fresh k =
    insert_job-IsKeyed id incident_id now f q fresh k
record_failure-IsKeyed id incident_id now f q (some active) fresh k = record {
  key = λ i. le_trans (update-le_key (named active.id) (recur now) q.jobs i (λ j. refl)) (k.key i);
}

-- With a fresh identifier the key holds after an insertion.
pub enqueue-IsKeyed :
    (id incident_id : String) (now : ℕ) (f : Failure) (q : Queue)
    → count_where (named id) q.jobs ≡ 0
    → IsKeyed q
    → IsKeyed (enqueue id incident_id now f q).0
unfolding enqueue
enqueue-IsKeyed id incident_id now f q fresh k =
    record_failure-IsKeyed id incident_id now f q (first_where (holds f.fingerprint) q.jobs) fresh k
