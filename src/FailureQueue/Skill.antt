-- ===== src/FailureQueue/Skill.antt =====
-- Infrastructure failures never reach the learner: no open row has an infrastructure error type.
use text.Mathlib.TextPositions.{eq_refl}
use po_c_sqlagent.Base.{
  ℕ, String, true, false, ◌≡◌, refl, Option, none, some, List, [], ◌∷◌, ◌++◌, arith, All, In, ok,
  ok-injective, subst, inl, inr, Bool-cases,
}
use po_c_sqlagent.Python.{Value}
use po_c_sqlagent.FailureQueue.Table.{
  Status, pending, running, incident, Job, Queue, is_active, update_where, first_where,
  oldest_pending,
}
use po_c_sqlagent.FailureQueue.Operations.{
  Failure, record_failure, take_row, finish_as, recur, holds, set_status, close, enqueue,
  insert_job, new_job, requeue_stale, is_stale, claim, finish, terminal, is_infra,
}
use po_c_sqlagent.FailureQueue.Updates.{
  All-update, All-updated, All-append, All-In, update_where-append, oldest_pending-In, only_one,
}
use po_c_sqlagent.FailureQueue.Keys.{named, IsKeyed, requeue_stale-IsKeyed}
use po_c_sqlagent.FailureQueue.Unique.{pending-is_active, terminal-closed}

-- An open row has a failure that learning may mend.
abbrev pub IsSkillRow : Job → Type 0
IsSkillRow j = is_active j.status ≡ true → is_infra j.error_type ≡ false

pub record IsSkill (q : Queue) : Type 0 where
  pub open_rows : All IsSkillRow q.jobs

new_job-IsSkillRow :
    (id : String) (now : ℕ) (f : Failure)
    → is_infra f.error_type ≡ false
    → IsSkillRow (new_job id now f)
unfolding new_job
new_job-IsSkillRow id now f skill active = skill

new_job-named_self : (id : String) (now : ℕ) (f : Failure) → named id (new_job id now f) ≡ true
unfolding new_job
new_job-named_self id now f = eq_refl id

closed-IsSkillRow :
    (s : Status) (now : ℕ) (j : Job) → is_active s ≡ false → IsSkillRow (set_status s now j)
closed-IsSkillRow s now j closed active = absurd (cc (closed, active))

inserted-infra :
    (id : String) (now : ℕ) (f : Failure) (jobs : List Job)
    → All IsSkillRow jobs
    → All IsSkillRow
        (update_where (named id) (set_status incident now) (jobs ++ new_job id now f ∷ []))
inserted-infra id now f jobs h = rw update_where-append (
    All-append IsSkillRow _ _
      (All-update IsSkillRow (named id) (set_status incident now) jobs
        (λ j _ _ _. closed-IsSkillRow incident now j refl) h)
      (All-updated IsSkillRow (named id) (set_status incident now) (new_job id now f ∷ []) (λ j m.
        (λ hit. closed-IsSkillRow incident now j refl, λ miss. absurd (missed id now f j m miss)))))
  where
    missed :
        (id : String) (now : ℕ) (f : Failure) (j : Job)
        → In j (new_job id now f ∷ [])
        → named id j ≡ false
        → ⊥
    missed id now f j (inl e) miss = cc (new_job-named_self id now f, e, miss)
    missed id now f j (inr m) miss = elim m [ ]

insert_job-IsSkill :
    (id incident_id : String) (now : ℕ) (f : Failure) (q : Queue)
    → IsSkill q
    → IsSkill (insert_job id incident_id now f q)
unfolding insert_job
insert_job-IsSkill id incident_id now f q h = elim (Bool-cases (is_infra f.error_type)) [
  | inl infra ↦ rw infra (record { open_rows = inserted-infra id now f q.jobs h.open_rows })
  | inr skill ↦ rw skill (record {
    open_rows =
        All-append IsSkillRow q.jobs (new_job id now f ∷ []) h.open_rows
          (new_job-IsSkillRow id now f skill, tt);
  })
]

record_failure-IsSkill :
    (id incident_id : String) (now : ℕ) (f : Failure) (q : Queue) (o : Option Job)
    → IsSkill q
    → IsSkill (record_failure id incident_id now f q o).0
unfolding record_failure
record_failure-IsSkill id incident_id now f q none h = insert_job-IsSkill id incident_id now f q h
record_failure-IsSkill id incident_id now f q (some active) h = record {
  open_rows =
      All-update IsSkillRow (named active.id) (recur now) q.jobs (λ j _ _ skill. skill) h.open_rows;
}

pub enqueue-IsSkill :
    (id incident_id : String) (now : ℕ) (f : Failure) (q : Queue)
    → IsSkill q
    → IsSkill (enqueue id incident_id now f q).0
unfolding enqueue
enqueue-IsSkill id incident_id now f q h =
    record_failure-IsSkill id incident_id now f q (first_where (holds f.fingerprint) q.jobs) h

stale-IsSkillRow :
    (stale_after now now' : ℕ) (j : Job)
    → is_stale stale_after now' j ≡ true
    → IsSkillRow j
    → IsSkillRow (set_status pending now j)
stale-IsSkillRow stale_after now now' j stale skill active = skill (ground arith)

requeue_stale-IsSkill :
    (stale_after now now' : ℕ) (q : Queue)
    → IsSkill q
    → IsSkill (record q { jobs = requeue_stale stale_after now now' q.jobs })
unfolding requeue_stale
requeue_stale-IsSkill stale_after now now' q h = record {
  open_rows =
      All-update IsSkillRow (is_stale stale_after now') (set_status pending now) q.jobs
        (λ j _. stale-IsSkillRow stale_after now now' j) h.open_rows;
}

-- The row that a claim takes, and every row of its identifier, was open.
oldest-IsSkill :
    (q : Queue) (row : Job)
    → oldest_pending q.jobs ≡ some row
    → IsSkill q
    → is_infra row.error_type ≡ false
oldest-IsSkill q row e h =
    let (m, waits) = oldest_pending-In q.jobs row e in
    All-In IsSkillRow q.jobs row h.open_rows m (pending-is_active row.status waits)

take_row-IsSkill :
    (now : ℕ) (q : Queue) (o : Option Job)
    → oldest_pending q.jobs ≡ o
    → IsKeyed q
    → IsSkill q
    → IsSkill (take_row now q o).0
unfolding take_row
take_row-IsSkill now q none e k h = h
take_row-IsSkill now q (some row) e k h = record {
  open_rows =
      All-update IsSkillRow (named row.id) (set_status running now) q.jobs
        (λ j m hit _ _.
          let (row_in, _) = oldest_pending-In q.jobs row e in
          subst (λ (x : Job). is_infra x.error_type ≡ false)
            (only_one (named row.id) q.jobs row j (k.key row.id) row_in m (eq_refl row.id) hit)
            (oldest-IsSkill q row e h))
        h.open_rows;
}

pub claim-IsSkill :
    (stale_after now now' now'' : ℕ) (q : Queue)
    → IsKeyed q
    → IsSkill q
    → IsSkill (claim stale_after now now' now'' q).0
unfolding claim
claim-IsSkill stale_after now now' now'' q k h =
    let jobs = requeue_stale stale_after now now' q.jobs in
    take_row-IsSkill now'' (record q { jobs = jobs }) (oldest_pending jobs) refl
      (requeue_stale-IsKeyed stale_after now now' q k)
      (requeue_stale-IsSkill stale_after now now' q h)

finish_as-IsSkill :
    (o : Option Status) (id : String) (v : Value) (now : ℕ) (q q' : Queue)
    → ((s : Status) → o ≡ some s → is_active s ≡ false)
    → IsSkill q
    → finish_as o id v now q ≡ ok q'
    → IsSkill q'
unfolding finish_as
finish_as-IsSkill none id v now q q' closed h e = absurd (cc e)
finish_as-IsSkill (some s) id v now q q' closed h e = subst IsSkill (ok-injective e) (record {
  open_rows =
      All-update IsSkillRow (named id) (close s v now) q.jobs
        (λ j _ _ _. closed-IsSkillRow s now j (closed s refl)) h.open_rows;
})

pub finish-IsSkill :
    (id status : String) (v : Value) (now : ℕ) (q q' : Queue)
    → IsSkill q
    → finish id status v now q ≡ ok q'
    → IsSkill q'
unfolding finish
finish-IsSkill id status v now q q' h e =
    finish_as-IsSkill (terminal status) id v now q q' (terminal-closed status) h e

take_row-IsSkill_job :
    (now : ℕ) (q q' : Queue) (o : Option Job) (job : Job)
    → oldest_pending q.jobs ≡ o
    → IsSkill q
    → take_row now q o ≡ (q', some job)
    → is_infra job.error_type ≡ false
unfolding take_row
take_row-IsSkill_job now q q' none job e h r = absurd (ground arith)
take_row-IsSkill_job now q q' (some row) job e h r = ground (arith, oldest-IsSkill q row e h)

-- From a queue with no open infrastructure failure, a claimed job is never one.
pub claim-IsSkill_job :
    (stale_after now now' now'' : ℕ) (q q' : Queue) (job : Job)
    → IsSkill q
    → claim stale_after now now' now'' q ≡ (q', some job)
    → is_infra job.error_type ≡ false
unfolding claim
claim-IsSkill_job stale_after now now' now'' q q' job h r =
    let jobs = requeue_stale stale_after now now' q.jobs in
    take_row-IsSkill_job now'' (record q { jobs = jobs }) q' (oldest_pending jobs) job refl
      (requeue_stale-IsSkill stale_after now now' q h) r
