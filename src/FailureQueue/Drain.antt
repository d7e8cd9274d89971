-- ===== src/FailureQueue/Drain.antt =====
-- The learner loop never fails on its own, and works off every pending job.
use text.Mathlib.TextPositions.{eq_refl}
use po_c_sqlagent.Base.{
  ℕ, zero, suc, ◌≤◌, ◌<◌, Bool, true, false, ◌≡◌, refl, Option, none, some, List, arith, All, In,
  [], if◌then◌else◌, ◌∷◌, ok, ap, ◌∙◌,
}
use po_c_sqlagent.Python.{Value, get}
use po_c_sqlagent.FailureQueue.Table.{
  Status, pending, running, completed, rejected, failed, incident, Job, Queue, is_active,
  is_pending, is_running, update_where, oldest_pending,
}
use po_c_sqlagent.FailureQueue.Operations.{
  set_status, close, requeue_stale, is_stale, take_row, claim, finish, finish_as, terminal,
}
use po_c_sqlagent.FailureQueue.Updates.{
  count_where, count_where-update_le, count_where-update_lt, count_where_mono, update_where-none,
  update_where-update_where, oldest_pending-In, oldest_pending-none,
}
use po_c_sqlagent.FailureQueue.Keys.{named}
use po_c_sqlagent.FailureQueue.Worker.{
  Handled, returned, raised, is_promoted, status_of, result_of, Times, after_claim, round, rounds,
}

abbrev pub pending_row : Job → Bool
pending_row j = is_pending j.status

abbrev pub running_row : Job → Bool
running_row j = is_running j.status

judged-terminal :
    (promoted : Bool)
    → (s : Status) × (terminal (if promoted then "completed" else "rejected") ≡ some s)
      × (is_active s ≡ false)
unfolding terminal
judged-terminal true = (completed, refl, refl)
judged-terminal false = (rejected, refl, refl)

-- The loop finishes with a status that finish accepts.
status_of-terminal :
    (h : Handled) → (s : Status) × (terminal (status_of h) ≡ some s) × (is_active s ≡ false)
unfolding status_of terminal
status_of-terminal (raised m) = (failed, refl, refl)
status_of-terminal (returned r) = judged-terminal (is_promoted (get "status" r))

closed-not_pending : (s : Status) → is_active s ≡ false → is_pending s ≡ false
closed-not_pending pending h = absurd (cc h)
closed-not_pending running h = refl
closed-not_pending completed h = refl
closed-not_pending rejected h = refl
closed-not_pending failed h = refl
closed-not_pending incident h = refl

closed-not_running : (s : Status) → is_active s ≡ false → is_running s ≡ false
closed-not_running pending h = refl
closed-not_running running h = absurd (cc h)
closed-not_running completed h = refl
closed-not_running rejected h = refl
closed-not_running failed h = refl
closed-not_running incident h = refl

none_pending :
    (jobs : List Job)
    → All (λ j. is_pending j.status ≡ false) jobs
    → count_where pending_row jobs ≡ 0
unfolding count_where
none_pending [] h = refl
none_pending (j ∷ js) h = ground (arith, none_pending js h.1, h.0)

not_stale :
    (stale_after now : ℕ) (jobs : List Job)
    → count_where running_row jobs ≡ 0
    → count_where (is_stale stale_after now) jobs ≡ 0
not_stale stale_after now jobs h =
    omega (
      arith,
      count_where_mono (is_stale stale_after now) running_row jobs (λ j stale. ground arith),
    )

-- With no running row a claim requeues nothing.
requeue_stale-none :
    (stale_after now now' : ℕ) (jobs : List Job)
    → count_where running_row jobs ≡ 0
    → requeue_stale stale_after now now' jobs ≡ jobs
unfolding requeue_stale
requeue_stale-none stale_after now now' jobs h =
    update_where-none (is_stale stale_after now') (set_status pending now) jobs
      (not_stale stale_after now' jobs h)

-- A handled row is closed, so fewer rows wait, and no row is left running.
take-lowers :
    (s : Status) (v : Value) (now now' : ℕ) (row : Job) (jobs : List Job)
    → is_active s ≡ false
    → In row jobs
    → is_pending row.status ≡ true
    → count_where pending_row
        (update_where (named row.id) (λ j. close s v now' (set_status running now j)) jobs)
      < count_where pending_row jobs
take-lowers s v now now' row jobs closed m waits =
    count_where-update_lt pending_row (named row.id)
      (λ j. close s v now' (set_status running now j)) row jobs (λ j _. closed-not_pending s closed)
      m (eq_refl row.id) waits

take-keeps_idle :
    (s : Status) (v : Value) (now now' : ℕ) (row : Job) (jobs : List Job)
    → is_active s ≡ false
    → count_where running_row
        (update_where (named row.id) (λ j. close s v now' (set_status running now j)) jobs)
      ≤ count_where running_row jobs
take-keeps_idle s v now now' row jobs closed =
    count_where-update_le running_row (named row.id)
      (λ j. close s v now' (set_status running now j)) jobs
      (λ j _ _ runs. absurd (cc (closed-not_running s closed, runs)))

-- The loop is idle after some rounds: no row runs, and at most `n` wait.
pub record IsIdle (n : ℕ) (q : Queue) : Type 0 where
  pub none_runs : count_where running_row q.jobs ≡ 0
  pub few_wait : count_where pending_row q.jobs ≤ n

finish_taken :
    (s : Status) (v : Value) (now now' : ℕ) (row : Job) (q : Queue)
    → finish_as (some s) row.id v now' (take_row now q (some row)).0
      ≡ ok (record q {
        jobs = update_where (named row.id) (λ j. close s v now' (set_status running now j)) q.jobs;
      })
unfolding finish_as take_row
finish_taken s v now now' row q =
    ap (λ (jobs : List Job). ok (record q { jobs = jobs }))
      (update_where-update_where (named row.id) (set_status running now) (close s v now') q.jobs
        (λ j. refl))

module _ (stale_after : ℕ) (handler : Job → Handled) where
  handled-IsIdle :
      (n : ℕ) (t : Times) (q : Queue) (row : Job)
      → oldest_pending q.jobs ≡ some row
      → IsIdle (suc n) q
      → (q' : Queue) × (after_claim stale_after handler t (take_row t.claimed q (some row)) ≡ ok q')
        × IsIdle n q'
  unfolding after_claim finish take_row
  handled-IsIdle n t q row e idle =
      let h = handler (record row { status = running }) in
      let (s, accepted, closed) = status_of-terminal h in
      let (m, waits) = oldest_pending-In q.jobs row e in
      (
        _,
        ap (λ o. finish_as o row.id (result_of h) t.finished (take_row t.claimed q (some row)).0)
              accepted
            ∙ finish_taken s (result_of h) t.claimed t.finished row q,
        record {
          none_runs = omega (
            arith,
            idle.none_runs,
            take-keeps_idle s (result_of h) t.claimed t.finished row q.jobs closed,
          );
          few_wait = omega (
            arith,
            idle.few_wait,
            take-lowers s (result_of h) t.claimed t.finished row q.jobs closed m waits,
          );
        },
      )

  taken-IsIdle :
      (n : ℕ) (t : Times) (q : Queue) (o : Option Job)
      → oldest_pending q.jobs ≡ o
      → IsIdle (suc n) q
      → (q' : Queue) × (after_claim stale_after handler t (take_row t.claimed q o) ≡ ok q')
        × IsIdle n q'
  unfolding after_claim take_row
  taken-IsIdle n t q none e idle = (
    q,
    refl,
    record {
      none_runs = idle.none_runs;
      few_wait = omega (arith, none_pending q.jobs (oldest_pending-none q.jobs e));
    },
  )
  taken-IsIdle n t q (some row) e idle = handled-IsIdle n t q row e idle

  round-IsIdle :
      (n : ℕ) (t : Times) (q : Queue)
      → IsIdle (suc n) q
      → (q' : Queue) × (round stale_after handler t q ≡ ok q') × IsIdle n q'
  unfolding round claim
  round-IsIdle n t q idle =
      rw (requeue_stale-none stale_after t.requeued t.deadline q.jobs idle.none_runs)
        (taken-IsIdle n t q (oldest_pending q.jobs) refl idle)

  -- Whatever the handler returns or raises and whatever the clock says: from a queue of at most `n`
  -- pending rows and no running one, `n` rounds of the loop fail nowhere and leave no row pending
  -- and none running.
  pub rounds-IsIdle :
      (n : ℕ) (times : ℕ → Times) (q : Queue)
      → IsIdle n q
      → (q' : Queue) × (rounds stale_after handler n times q ≡ ok q') × IsIdle 0 q'
  unfolding rounds
  rounds-IsIdle zero times q idle = (q, refl, idle)
  rounds-IsIdle (suc n) times q idle =
      let (q', e, idle') = round-IsIdle n (times n) q idle in
      let (q'', e', idle'') = rounds-IsIdle n times q' idle' in (q'', rw e e', idle'')
