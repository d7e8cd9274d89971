-- ===== src/FailureQueue/Reach.antt =====
-- The queue through any history of operations, by any interleaving of request writers and learner.
use po_c_sqlagent.Base.{ℕ, suc, String, ◌≡◌, refl, [], ok, arith}
use po_c_sqlagent.Python.{Value}
use po_c_sqlagent.FailureQueue.Table.{Queue}
use po_c_sqlagent.FailureQueue.Operations.{Failure, enqueue, claim, finish}
use po_c_sqlagent.FailureQueue.Updates.{count_where, occurrences}
use po_c_sqlagent.FailureQueue.Keys.{named, IsKeyed, enqueue-IsKeyed, claim-IsKeyed, finish-IsKeyed}
use po_c_sqlagent.FailureQueue.Unique.{IsUnique, enqueue-IsUnique, claim-IsUnique, finish-IsUnique}
use po_c_sqlagent.FailureQueue.Skill.{IsSkill, enqueue-IsSkill, claim-IsSkill, finish-IsSkill}
use po_c_sqlagent.FailureQueue.Count.{enqueue-occurrences, claim-occurrences, finish-occurrences}

abbrev pub empty : Queue
empty = record { jobs = []; incidents = [] }

-- The queue after some operations, and how many failures were reported. An enqueue's identifier is
-- a fresh uuid.
pub data History : ℕ → Queue → Type 0 where
  start : History 0 empty
  enqueued :
      {n : ℕ} {q : Queue}
      → History n q
      → (id incident_id : String) (now : ℕ) (f : Failure) → count_where (named id) q.jobs ≡ 0
      → History (suc n) (enqueue id incident_id now f q).0
  claimed :
      {n : ℕ} {q : Queue}
      → History n q
      → (stale_after now now' now'' : ℕ) → History n (claim stale_after now now' now'' q).0
  finished :
      {n : ℕ} {q q' : Queue}
      → History n q
      → (id status : String) (v : Value) (now : ℕ) → finish id status v now q ≡ ok q'
      → History n q'

-- What holds of a queue after `n` reports.
pub record IsValid (n : ℕ) (q : Queue) : Type 0 where
  pub keyed : IsKeyed q
  pub unique : IsUnique q
  pub skill : IsSkill q
  pub counted : occurrences q.jobs ≡ n

empty-IsValid : IsValid 0 empty
unfolding count_where occurrences
empty-IsValid = record {
  keyed = record { key = λ id. omega arith };
  unique = record { at = λ fp. omega arith };
  skill = record { open_rows = tt };
  counted = refl;
}

-- After any operations from the empty queue: no two rows have one identifier, no two open rows have
-- one fingerprint, no open row is an infrastructure failure, and the rows count every report once.
pub History-IsValid : {n : ℕ} {q : Queue} → History n q → IsValid n q
History-IsValid start = empty-IsValid
History-IsValid (enqueued {q = q} h id incident_id now f fresh) =
    let v = History-IsValid h in
    record {
      keyed = enqueue-IsKeyed id incident_id now f q fresh v.keyed;
      unique = enqueue-IsUnique id incident_id now f q v.unique;
      skill = enqueue-IsSkill id incident_id now f q v.skill;
      counted = omega (arith, enqueue-occurrences id incident_id now f q v.keyed, v.counted);
    }
History-IsValid (claimed {q = q} h stale_after now now' now'') =
    let v = History-IsValid h in
    record {
      keyed = claim-IsKeyed stale_after now now' now'' q v.keyed;
      unique = claim-IsUnique stale_after now now' now'' q v.keyed v.unique;
      skill = claim-IsSkill stale_after now now' now'' q v.keyed v.skill;
      counted = omega (arith, claim-occurrences stale_after now now' now'' q, v.counted);
    }
History-IsValid (finished {q = q} {q' = q'} h id status r now e) =
    let v = History-IsValid h in
    record {
      keyed = finish-IsKeyed id status r now q q' v.keyed e;
      unique = finish-IsUnique id status r now q q' v.unique e;
      skill = finish-IsSkill id status r now q q' v.skill e;
      counted = omega (arith, finish-occurrences id status r now q q' e, v.counted);
    }
