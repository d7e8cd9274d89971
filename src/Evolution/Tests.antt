-- ===== src/Evolution/Tests.antt =====
-- Mutations of a small workspace.
use po_c_sqlagent.Base.{String, Bool, ◌≡◌, refl, ◌⊎◌, false, none, some, [], ◌∷◌, ok, err}
use po_c_sqlagent.Python.{
  Py, Value, null, str, list, dict, nil, cons, Fields, end, field, attribute_error,
}
use po_c_sqlagent.FailureQueue.{is_infra, Queue, Job, claim, enqueue, Failure, document, running}
use po_c_sqlagent.FailureQueue.Keys.{named}
use po_c_sqlagent.FailureQueue.Reach.{start, enqueued, empty}
use po_c_sqlagent.FailureQueue.Updates.{count_where}
use po_c_sqlagent.Evolution.{Skill, mutate, evolve_failure}
use po_c_sqlagent.Evolution.Reported.{
  Outcome, evolve_failure-Outcome, is_incident, evolve_failure-is_infra, claimed_no_incident,
}

abbrev skill : Skill
skill = record {
  root = "srv" ∷ [];
  links = λ place. place;
  dump = λ v. "yaml";
  learned_rules = λ w. ok null;
  manifest = λ w. ok end;
  format_sql = λ q. q;
  statements = λ q. 1;
}

abbrev proposal : String → String → Value
proposal path content = dict (field "path" (str path) (field "content" (str content) end))

abbrev two_files : Value
two_files = dict (
    field "files"
      (list
        (cons (proposal "templates/top.sql" "SELECT 1") (cons (proposal "metrics/m.yaml" "x") nil)))
      end)

-- The second file is refused: the first one stays written beside the fallback, and only the fallback
-- is reported.
first_file_stays : mutate skill "templates" (some (ok two_files)) ≡ (
  ("templates/top.sql", "SELECT 1;\n")
      ∷ (
        "templates/evolution_notes.md",
        "Use indexed date predicates and preaggregate one-to-many relations before coarse-grain sums.\n",
      )
      ∷ [],
  ok ("templates/evolution_notes.md" ∷ []),
)
unfolding mutate
first_file_stays = refl

-- A path may leave its surface by way of "..".
surface_left :
    mutate skill "domains" (
      some
        (ok (dict (field "files" (list (cons (proposal "domains/../manifest.yaml" "x") nil)) end))))
    ≡ (("domains/../manifest.yaml", "x") ∷ [], ok ("domains/../manifest.yaml" ∷ []))
unfolding mutate
surface_left = refl

-- A file that is no object stops the evolution.
no_object_stops :
    mutate skill "domains" (some (ok (dict (field "files" (list (cons (str "x") nil)) end))))
    ≡ ([], err attribute_error)
unfolding mutate
no_object_stops = refl

abbrev slow : Value → Py Bool
slow v = ok false

abbrev payload : Fields
payload = field "message" (str "unknown metric: churn") end

evolve_failure-Outcome_example :
    Outcome skill (evolve_failure skill slow [] (some (ok two_files)) "r" "lint_failed" payload)
evolve_failure-Outcome_example =
    evolve_failure-Outcome skill slow [] (some (ok two_files)) "r" "lint_failed" payload

evolve_failure-is_infra_example :
    (is_incident (evolve_failure skill slow [] none "r" "db_error" payload) ≡ is_infra "db_error")
    × ((is_infra "db_error" ≡ false)
        ⊎ ((evolve_failure skill slow [] none "r" "db_error" payload).0 ≡ []))
evolve_failure-is_infra_example = evolve_failure-is_infra skill slow [] none "r" "db_error" payload

abbrev bad_plan : Failure
bad_plan = record {
  request_id = "r";
  error_type = "plan_assembly_failed";
  stage = "plan";
  message = "unknown metric: churn";
  payload = end;
  surface = none;
  fingerprint = "f";
}

queue_runs : Unit {0}
unfolding enqueue claim count_where
queue_runs = tt

abbrev reported : Queue
reported = (enqueue "j" "i" 10 bad_plan empty).0

abbrev job : Job
job = record {
  id = "j";
  request_id = "r";
  fingerprint = "f";
  error_type = "plan_assembly_failed";
  surface = none;
  status = running;
  occurrence_count = 1;
  payload = document bad_plan;
  created_at = 10;
  updated_at = 10;
  result = none;
}

job_is_fresh : count_where (named "j") empty.jobs ≡ 0
unfolding queue_runs
job_is_fresh = refl

job_is_claimed : claim 1800 20 20 20 reported ≡ ((claim 1800 20 20 20 reported).0, some job)
unfolding queue_runs
job_is_claimed = refl

claimed_no_incident_example :
    is_incident (evolve_failure skill slow [] none "r" "plan_assembly_failed" payload) ≡ false
claimed_no_incident_example =
    claimed_no_incident 1800 20 20 20 (claim 1800 20 20 20 reported).0 job skill slow [] none
      payload (enqueued start "j" "i" 10 bad_plan job_is_fresh) job_is_claimed
