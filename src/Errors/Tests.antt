-- ===== src/Errors/Tests.antt =====
-- A classified error in the queue, at a concrete failure.
use po_c_sqlagent.Base.{◌≡◌, refl, none, some, []}
use po_c_sqlagent.Python.{end}
use po_c_sqlagent.Errors.{value, Raised, exception, classify_error, is_retryable, execution_timeout}
use po_c_sqlagent.FailureQueue.{Failure, Queue, enqueue, holds, first_where, is_infra}
use po_c_sqlagent.FailureQueue.Updates.{count_where}
use po_c_sqlagent.FailureQueue.Keys.{named}
use po_c_sqlagent.Errors.Retry.{Reported, classify_error-Reported, is_retryable-is_infra}

abbrev query_timeout : Raised
query_timeout = exception "QueryTimeout" "canceling statement" (some "57014")

abbrev report : Failure
report = record {
  request_id = "r1";
  error_type = "execution_timeout";
  stage = "execution";
  message = "canceling statement";
  payload = end;
  surface = none;
  fingerprint = "f1";
}

abbrev no_jobs : Queue
no_jobs = record { jobs = []; incidents = [] }

report_typed : "execution_timeout" ≡ value (classify_error query_timeout "execution" none).type
unfolding classify_error value
report_typed = refl

no_named : count_where (named "j1") no_jobs.jobs ≡ 0
unfolding count_where
no_named = refl

none_open : first_where (holds "f1") no_jobs.jobs ≡ none
unfolding first_where
none_open = refl

classify_error-Reported_example :
    Reported no_jobs
      (enqueue "j1" "i1" 10 report no_jobs).0
      "f1"
      (classify_error query_timeout "execution" none).retryable
classify_error-Reported_example =
    classify_error-Reported query_timeout "execution" none "j1" "i1" 10 report no_jobs report_typed
      no_named none_open

is_retryable-is_infra_example : is_retryable execution_timeout ≡ is_infra (value execution_timeout)
is_retryable-is_infra_example = is_retryable-is_infra execution_timeout
