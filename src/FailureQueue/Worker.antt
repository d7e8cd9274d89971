-- ===== src/FailureQueue/Worker.antt =====
-- sqlagent/failure_queue.py, LearnerWorker: one background loop that claims, handles and finishes.
-- The handler is an argument: it returns a dict or raises.
use po_c_sqlagent.Base.{
  ℕ, zero, suc, String, Bool, false, Option, none, some, ok, ◌>>=◌, if◌then◌else◌,
}
use po_c_sqlagent.Text.{◌=ₛ◌}
use po_c_sqlagent.Python.{Value, str, dict, Fields, end, field, Py, get}
use po_c_sqlagent.FailureQueue.Table.{Job, Queue}
use po_c_sqlagent.FailureQueue.Operations.{claim, finish}

pub data Handled : Type 0 where
  returned : Fields → Handled
  raised : (message : String) → Handled

-- `result.get("status") == "promoted"`.
pub is_promoted : Value → Bool
is_promoted (str s) = s =ₛ "promoted"
is_promoted v = false

unfoldable pub status_of : Handled → String
unfolding is_promoted get
status_of (returned r) = if is_promoted (get "status" r) then "completed" else "rejected"
status_of (raised m) = "failed"

unfoldable pub result_of : Handled → Value
result_of (returned r) = dict r
result_of (raised m) = dict (field "error" (str m) end)

-- What the clock answers in one round.
pub record Times : Type 0 where
  pub requeued : ℕ
  pub deadline : ℕ
  pub claimed : ℕ
  pub finished : ℕ

module _ (stale_after : ℕ) (handler : Job → Handled) where
  unfoldable pub after_claim : Times → Queue × Option Job → Py Queue
  unfolding status_of result_of
  after_claim t (q, none) = ok q
  after_claim t (q, some job) =
      let handled = handler job in
      finish job.id (status_of handled) (result_of handled) t.finished q

  -- One round of `_run`; a round with no job only waits.
  unfoldable pub round : Times → Queue → Py Queue
  unfolding after_claim
  round t q = after_claim t (claim stale_after t.requeued t.deadline t.claimed q)

  -- A number of rounds.
  unfoldable pub rounds : ℕ → (ℕ → Times) → Queue → Py Queue
  unfolding round
  rounds zero times q = ok q
  rounds (suc n) times q = do q' ← round (times n) q; rounds n times q'
