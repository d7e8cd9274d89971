-- ===== src/FailureQueue/Table.antt =====
-- sqlagent/failure_queue.py: the rows of the two tables, and the SQL statements over them.
-- A timestamp is a number. A statement runs inside one BEGIN IMMEDIATE transaction or alone, so an
-- operation is one step on the tables.
use po_c_sqlagent.Base.{
  ℕ, String, Bool, true, false, Option, none, some, List, [], ◌∷◌, map, leb, if◌then◌else◌,
}
use po_c_sqlagent.Python.{Value}

pub data Status : Type 0 where
  pending running completed rejected failed incident : Status

pub record Job : Type 0 where
  pub id : String
  pub request_id : String
  pub fingerprint : String
  pub error_type : String
  pub surface : Option String
  pub status : Status
  pub occurrence_count : ℕ
  pub payload : Value
  pub created_at : ℕ
  pub updated_at : ℕ
  pub result : Option Value

pub record Incident : Type 0 where
  pub id : String
  pub request_id : String
  pub fingerprint : String
  pub error_type : String
  pub payload : Value
  pub created_at : ℕ

pub record Queue : Type 0 where
  pub jobs : List Job
  pub incidents : List Incident

abbrev pub infra_error_types : List String
infra_error_types =
    "llm_timeout" ∷ "llm_transport_error" ∷ "explain_timeout" ∷ "execution_timeout" ∷ "db_error"
    ∷ "serialization_failed" ∷ []

-- `status IN ('pending', 'running')`.
abbrev pub is_active : Status → Bool
is_active pending = true
is_active running = true
is_active _ = false

abbrev pub is_pending : Status → Bool
is_pending pending = true
is_pending _ = false

abbrev pub is_running : Status → Bool
is_running running = true
is_running _ = false

-- `UPDATE failure_jobs SET … WHERE …`.
unfoldable pub update_where : (Job → Bool) → (Job → Job) → List Job → List Job
update_where p f jobs = map (λ j. if p j then f j else j) jobs

-- `SELECT … WHERE …`, the first row.
unfoldable pub first_where : (Job → Bool) → List Job → Option Job
first_where p [] = none
first_where p (j ∷ js) = if p j then some j else first_where p js

-- `SELECT … WHERE status = 'pending' ORDER BY created_at LIMIT 1`: of equal times, the row that
-- stands first.
abbrev pub earlier : Job → Option Job → Job
earlier j none = j
earlier j (some k) = if leb j.created_at k.created_at then j else k

unfoldable pub oldest_pending : List Job → Option Job
oldest_pending [] = none
oldest_pending (j ∷ js) =
    let rest = oldest_pending js in if is_pending j.status then some (earlier j rest) else rest
