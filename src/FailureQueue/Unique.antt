-- ===== src/FailureQueue/Unique.antt =====
-- The partial unique index of failure_jobs: no two open rows have one fingerprint. The statements of
-- the operations never violate it.
use native.Mathlib.Nat.{le_trans}
use text.Mathlib.TextEquality.{eq_iff}
use text.Mathlib.TextPositions.{eq_refl}
use po_c_sqlagent.Base.{
  ℕ, ◌≤◌, String, true, false, ◌≡◌, refl, Option, none, some, List, [], ◌∷◌, ◌++◌, arith, inl, inr,
  ok, ok-injective, subst, Bool-cases,
}
use po_c_sqlagent.Text.{◌=ₛ◌}
use po_c_sqlagent.Python.{Value}
use po_c_sqlagent.FailureQueue.Table.{
  Status, pending, running, incident, Job, Queue, is_active, is_pending, first_where,
  oldest_pending,
}
use po_c_sqlagent.FailureQueue.Operations.{
  Failure, record_failure, take_row, finish_as, holds, recur, set_status, close, enqueue,
  insert_job, new_job, requeue_stale, is_stale, claim, finish, terminal, is_infra,
}
use po_c_sqlagent.FailureQueue.Keys.{IsKeyed, requeue_stale-IsKeyed}
use po_c_sqlagent.FailureQueue.Updates.{
  count_where, count_where-append, count_where-one, count_where-update_le, first_where-none, one_if,
  only_one, oldest_pending-In,
}

-- At most one open row for each fingerprint.
pub record IsUnique (q : Queue) : Type 0 where
  pub at : (fingerprint : String) → count_where (holds fingerprint) q.jobs ≤ 1

module _ (fp : String) where
  recur-holds : (now : ℕ) (j : Job) → holds fp (recur now j) ≡ true → holds fp j ≡ true
  recur-holds now j h = h

  set_status-holds :
      (s : Status) (now : ℕ) (j : Job)
      → is_active j.status ≡ true
      → holds fp (set_status s now j) ≡ true
      → holds fp j ≡ true
  set_status-holds s now j active h = ground arith

  closed-holds :
      (s : Status) (now : ℕ) (j : Job)
      → is_active s ≡ false
      → holds fp (set_status s now j) ≡ true
      → holds fp j ≡ true
  closed-holds s now j c h = ground arith

  new_job-holds :
      (id : String) (now : ℕ) (f : Failure)
      → one_if (holds fp (new_job id now f)) ≡ one_if (f.fingerprint =ₛ fp)
  unfolding new_job
  new_job-holds id now f = ground arith

  -- A new row is the only open one of its fingerprint.
  appended :
      (id : String) (now : ℕ) (f : Failure) (jobs : List Job)
      → count_where (holds f.fingerprint) jobs ≡ 0
      → count_where (holds fp) jobs ≤ 1
      → count_where (holds fp) (jobs ++ new_job id now f ∷ []) ≤ 1
  appended id now f jobs none_open h = ground (
    arith,
    count_where-append (holds fp) jobs (new_job id now f ∷ []),
    count_where-one (holds fp) (new_job id now f),
    new_job-holds id now f,
    eq_iff f.fingerprint fp,
  )

  insert_job-le :
      (id incident_id : String) (now : ℕ) (f : Failure) (q : Queue)
      → count_where (holds f.fingerprint) q.jobs ≡ 0
      → count_where (holds fp) q.jobs ≤ 1
      → count_where (holds fp) (insert_job id incident_id now f q).jobs ≤ 1
  unfolding insert_job
  insert_job-le id incident_id now f q none_open h = elim (Bool-cases (is_infra f.error_type)) [
    | inl infra ↦
        let jobs = q.jobs ++ new_job id now f ∷ [] in
        rw infra (
          omega (
            arith,
            count_where-update_le (holds fp) (λ j. j.id =ₛ id) (set_status incident now) jobs
                (λ j _ _ hit. closed-holds incident now j refl hit),
            appended id now f q.jobs none_open h,
          ))
    | inr skill ↦ rw skill (appended id now f q.jobs none_open h)
  ]

record_failure-IsUnique :
    (id incident_id : String) (now : ℕ) (f : Failure) (q : Queue) (o : Option Job)
    → first_where (holds f.fingerprint) q.jobs ≡ o
    → IsUnique q
    → IsUnique (record_failure id incident_id now f q o).0
unfolding record_failure
record_failure-IsUnique id incident_id now f q none e u = record {
  at = λ fp.
      insert_job-le fp id incident_id now f q (first_where-none (holds f.fingerprint) q.jobs e)
        (u.at fp);
}
record_failure-IsUnique id incident_id now f q (some active) e u = record {
  at = λ fp.
      le_trans
        (count_where-update_le (holds fp) (λ j. j.id =ₛ active.id) (recur now) q.jobs
          (λ j _ _ hit. recur-holds fp now j hit))
        (u.at fp);
}

-- A new failure leaves at most one open row for each fingerprint: the insertion never violates the
-- unique index.
pub enqueue-IsUnique :
    (id incident_id : String) (now : ℕ) (f : Failure) (q : Queue)
    → IsUnique q
    → IsUnique (enqueue id incident_id now f q).0
unfolding enqueue
enqueue-IsUnique id incident_id now f q u =
    record_failure-IsUnique id incident_id now f q (first_where (holds f.fingerprint) q.jobs) refl u

requeue-holds :
    (fp : String) (stale_after now now' : ℕ) (j : Job)
    → is_stale stale_after now' j ≡ true
    → holds fp (set_status pending now j) ≡ true
    → holds fp j ≡ true
requeue-holds fp stale_after now now' j stale h = ground arith

requeue_stale-IsUnique :
    (stale_after now now' : ℕ) (q : Queue)
    → IsUnique q
    → IsUnique (record q { jobs = requeue_stale stale_after now now' q.jobs })
unfolding requeue_stale
requeue_stale-IsUnique stale_after now now' q u = record {
  at = λ fp.
      le_trans
        (count_where-update_le (holds fp) (is_stale stale_after now') (set_status pending now)
          q.jobs (λ j _. requeue-holds fp stale_after now now' j))
        (u.at fp);
}

pub pending-is_active : (s : Status) → is_pending s ≡ true → is_active s ≡ true
pending-is_active s h = ground arith

take_row-IsUnique :
    (now : ℕ) (q : Queue) (o : Option Job)
    → oldest_pending q.jobs ≡ o
    → IsKeyed q
    → IsUnique q
    → IsUnique (take_row now q o).0
unfolding take_row
take_row-IsUnique now q none e k u = u
take_row-IsUnique now q (some row) e k u = record {
  at = λ fp.
      le_trans
        (count_where-update_le (holds fp) (λ j. j.id =ₛ row.id) (set_status running now) q.jobs
          (λ j m hit active.
            let (row_in, waits) = oldest_pending-In q.jobs row e in
            let same =
              only_one (λ j. j.id =ₛ row.id) q.jobs row j (k.key row.id) row_in m (eq_refl row.id)
                hit in
            set_status-holds fp running now j
              (subst (λ (x : Job). is_active x.status ≡ true) same
                (pending-is_active row.status waits))
              active))
        (u.at fp);
}

-- A claim opens no second row of a fingerprint, where identifiers are unique.
pub claim-IsUnique :
    (stale_after now now' now'' : ℕ) (q : Queue)
    → IsKeyed q
    → IsUnique q
    → IsUnique (claim stale_after now now' now'' q).0
unfolding claim
claim-IsUnique stale_after now now' now'' q k u =
    let jobs = requeue_stale stale_after now now' q.jobs in
    take_row-IsUnique now'' (record q { jobs = jobs }) (oldest_pending jobs) refl
      (requeue_stale-IsKeyed stale_after now now' q k)
      (requeue_stale-IsUnique stale_after now now' q u)

pub terminal-closed :
    (status : String) (s : Status) → terminal status ≡ some s → is_active s ≡ false
unfolding terminal
terminal-closed status s h = ground arith

finish_as-IsUnique :
    (o : Option Status) (id : String) (v : Value) (now : ℕ) (q q' : Queue)
    → ((s : Status) → o ≡ some s → is_active s ≡ false)
    → IsUnique q
    → finish_as o id v now q ≡ ok q'
    → IsUnique q'
unfolding finish_as
finish_as-IsUnique none id v now q q' closed u h = absurd (cc h)
finish_as-IsUnique (some s) id v now q q' closed u h = subst IsUnique (ok-injective h) (record {
  at = λ fp.
      le_trans
        (count_where-update_le (holds fp) (λ j. j.id =ₛ id) (close s v now) q.jobs
          (λ j _ _ hit. closed-holds fp s now j (closed s refl) hit))
        (u.at fp);
})

pub finish-IsUnique :
    (id status : String) (v : Value) (now : ℕ) (q q' : Queue)
    → IsUnique q
    → finish id status v now q ≡ ok q'
    → IsUnique q'
unfolding finish
finish-IsUnique id status v now q q' u h =
    finish_as-IsUnique (terminal status) id v now q q' (terminal-closed status) u h
