-- ===== src/FailureQueue/Tests.antt =====
-- Runs of the queue and of the loop, and the theorems at them.
use po_c_sqlagent.Base.{arith, ℕ, false, ◌≡◌, refl, Option, none, some, ok}
use po_c_sqlagent.Python.{str, end, field}
use po_c_sqlagent.FailureQueue.Table.{Job, Queue, running}
use po_c_sqlagent.FailureQueue.Operations.{
  Failure, enqueue, document, is_infra, claim, finish, get_job,
}
use po_c_sqlagent.FailureQueue.Updates.{count_where, occurrences}
use po_c_sqlagent.FailureQueue.Keys.{named}
use po_c_sqlagent.FailureQueue.Skill.{IsSkill, claim-IsSkill_job}
use po_c_sqlagent.FailureQueue.Reach.{
  History, start, enqueued, claimed, empty, IsValid, History-IsValid,
}
use po_c_sqlagent.FailureQueue.Worker.{Handled, returned, Times, rounds}
use po_c_sqlagent.FailureQueue.Drain.{IsIdle, rounds-IsIdle}

abbrev bad_plan : Failure
bad_plan = record {
  request_id = "r1";
  error_type = "plan_assembly_failed";
  stage = "plan";
  message = "unknown column: a.b";
  payload = end;
  surface = none;
  fingerprint = "f1";
}

abbrev slow_database : Failure
slow_database = record {
  request_id = "r2";
  error_type = "db_error";
  stage = "execute";
  message = "connection refused";
  payload = end;
  surface = none;
  fingerprint = "f2";
}

queue_runs : Unit {0}
unfolding enqueue claim finish get_job count_where occurrences rounds
queue_runs = tt

abbrev once : Queue
once = (enqueue "j1" "i1" 10 bad_plan empty).0

abbrev twice : Queue
twice = (enqueue "j2" "i2" 20 bad_plan once).0

abbrev thrice : Queue
thrice = (enqueue "j3" "i3" 30 slow_database twice).0

-- The same failure meets its open row; an infrastructure failure has a closed row and an incident.
twice_is_one_row : (enqueue "j2" "i2" 20 bad_plan once).1 ≡ "j1"
unfolding queue_runs
twice_is_one_row = refl

fresh_first : count_where (named "j1") empty.jobs ≡ 0
unfolding queue_runs
fresh_first = refl

fresh_second : count_where (named "j2") once.jobs ≡ 0
unfolding queue_runs
fresh_second = refl

fresh_third : count_where (named "j3") twice.jobs ≡ 0
unfolding queue_runs
fresh_third = refl

reported : History 3 thrice
reported =
    enqueued
      (enqueued (enqueued start "j1" "i1" 10 bad_plan fresh_first) "j2" "i2" 20 bad_plan
        fresh_second)
      "j3" "i3" 30 slow_database fresh_third

History-IsValid_example : IsValid 3 (claim 1800 40 40 40 thrice).0
History-IsValid_example = History-IsValid (claimed reported 1800 40 40 40)

thrice-IsSkill : IsSkill thrice
thrice-IsSkill = (History-IsValid reported).skill

abbrev taken : Queue × Option Job
taken = claim 1800 40 40 40 thrice

abbrev taken_job : Job
taken_job = record {
  id = "j1";
  request_id = "r1";
  fingerprint = "f1";
  error_type = "plan_assembly_failed";
  surface = none;
  status = running;
  occurrence_count = 2;
  payload = document bad_plan;
  created_at = 10;
  updated_at = 20;
  result = none;
}

taken_is : taken ≡ (taken.0, some taken_job)
unfolding queue_runs
taken_is = refl

claim-IsSkill_job_example : is_infra "plan_assembly_failed" ≡ false
claim-IsSkill_job_example =
    claim-IsSkill_job 1800 40 40 40 thrice taken.0 taken_job thrice-IsSkill taken_is

abbrev learner : Job → Handled
learner j = returned (field "status" (str "promoted") end)

abbrev clock : ℕ → Times
clock n = record { requeued = 50; deadline = 50; claimed = 50; finished = 60 }

thrice-IsIdle : IsIdle 1 thrice
unfolding queue_runs
thrice-IsIdle = record { none_runs = refl; few_wait = omega arith }

rounds-IsIdle_example : (q : Queue) × (rounds 1800 learner 1 clock thrice ≡ ok q) × IsIdle 0 q
rounds-IsIdle_example = rounds-IsIdle 1800 learner 1 clock thrice thrice-IsIdle
