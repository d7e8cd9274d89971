-- ===== src/Evaluator/Gate.antt =====
-- sqlagent/evaluator/engine.py, promotion_gate. A p95 time is a number of thousandths of a
-- millisecond, or none for infinity; its product with 1.01 is exact.
use po_c_sqlagent.Base.{
  ℕ, ◌*◌, String, Bool, true, false, not, ◌&&◌, ◌||◌, ◌==◌, leb, Option, none, some, List, [], ◌∷◌,
  map, select, all, ok, ◌>>=◌, if◌then◌else◌,
}
use po_c_sqlagent.Text.{◌=ₛ◌, member}
use po_c_sqlagent.Python.{Py}

pub record CaseReport : Type 0 where
  pub id : String
  pub outcome : String
  pub sql : Option String
  pub result_hash : Option String
  pub expected_change : Bool

pub record EvaluationReport : Type 0 where
  pub cases : List CaseReport
  pub unsafe : ℕ
  pub p95_exec_ms : Option ℕ
  pub corpus_checksum : String
  pub database_checksum : String

pub record GateResult : Type 0 where
  pub passed : Bool
  pub target_rescued : Bool
  pub unsafe_ok : Bool
  pub snapshot_ok : Bool
  pub regression_cases : List String
  pub non_equivalent_cases : List String
  pub performance_ok : Bool

-- `{case.id: case for case in cases}`: the place of the first case of an id, the value of the last.
put : CaseReport → List CaseReport → List CaseReport
put c [] = c ∷ []
put c (d ∷ ds) = let rest = put c ds in if d.id =ₛ c.id then c ∷ ds else d ∷ rest

unfoldable pub by_id : List CaseReport → List CaseReport → List CaseReport
unfolding put
by_id dict [] = dict
by_id dict (c ∷ cs) = by_id (put c dict) cs

-- `dict.get(id)`.
unfoldable pub case? : String → List CaseReport → Option CaseReport
case? i [] = none
case? i (c ∷ cs) = if c.id =ₛ i then some c else case? i cs

abbrev pub is_answered : CaseReport → Bool
is_answered c = c.outcome =ₛ "answered"

abbrev pub is_failed : CaseReport → Bool
is_failed c = c.outcome =ₛ "pipeline_failed"

abbrev expected_ids : List CaseReport → List String
expected_ids cs = map (λ c. c.id) (select (λ c. c.expected_change) cs)

-- `set(target_case_ids or [...])`.
unfoldable pub targets_of : Option (List String) → List CaseReport → List String
unfolding select
targets_of (some (t ∷ ts)) cases = t ∷ ts
targets_of _ cases = expected_ids cases

abbrev pub holds_for : (CaseReport → Bool) → Option CaseReport → Bool
holds_for p none = false
holds_for p (some c) = p c

unfoldable pub is_rescued : List CaseReport → List CaseReport → String → Bool
unfolding case?
is_rescued baseline candidate i =
    holds_for is_failed (case? i baseline)
    && holds_for (λ c. is_answered c || (c.outcome =ₛ "clarified")) (case? i candidate)

-- An answered case that the candidate lacks or fails.
unfoldable pub is_regression : List CaseReport → CaseReport → Bool
unfolding case?
is_regression candidate old =
    is_answered old && not (holds_for (λ new. not (is_failed new)) (case? old.id candidate))

unfoldable pub same_hash : Option String → Option String → Bool
same_hash none none = true
same_hash (some a) (some b) = a =ₛ b
same_hash _ _ = false

-- The database's comparison of two queries, where there is a database.
abbrev pub Compare : Type 0
Compare = Option (String → String → Py Bool)

-- Both texts are compared where both are there and not empty; else the hashes decide.
with_texts : (String → String → Py Bool) → Bool → Option String → Option String → Py Bool
with_texts compare same (some a) (some b) =
    if not (a =ₛ "") && not (b =ₛ "") then compare a b else ok same
with_texts compare same _ _ = ok same

unfoldable pub equivalent : Compare → CaseReport → CaseReport → Py Bool
unfolding same_hash with_texts
equivalent none old new = ok (same_hash old.result_hash new.result_hash)
equivalent (some compare) old new =
    with_texts compare (same_hash old.result_hash new.result_hash) old.sql new.sql

unfoldable pub differs : Compare → List String → CaseReport → Option CaseReport → Py Bool
unfolding equivalent member
differs compare targets old none = ok false
differs compare targets old (some new) =
    if member old.id targets || (not (is_answered old) || not (is_answered new))
    then ok false
    else (do same ← equivalent compare old new; ok (not same))

unfoldable pub non_equivalent :
    Compare → List String → List CaseReport → List CaseReport → Py (List String)
unfolding differs case?
non_equivalent compare targets candidate [] = ok []
non_equivalent compare targets candidate (old ∷ rest) = do
  differing ← differs compare targets old (case? old.id candidate)
  others ← non_equivalent compare targets candidate rest
  ok (if differing then old.id ∷ others else others)

unfoldable pub within_budget : Option ℕ → Option ℕ → Bool
within_budget c none = true
within_budget none (some b) = false
within_budget (some c) (some b) = leb (c * 100) (b * 101)

abbrev pub nothing : List String → Bool
nothing [] = true
nothing (x ∷ xs) = false

unfoldable pub gate_verdict :
    EvaluationReport → EvaluationReport → List String → List String → GateResult
unfolding by_id is_rescued is_regression within_budget select all
gate_verdict candidate baseline targets differing =
    let old = by_id [] baseline.cases in
    let new = by_id [] candidate.cases in
    let rescued = all (is_rescued old new) targets in
    let lost = map (λ c. c.id) (select (is_regression new) old) in
    let safe = candidate.unsafe == 0 in
    let snapshot =
      (candidate.database_checksum =ₛ baseline.database_checksum)
      && (candidate.corpus_checksum =ₛ baseline.corpus_checksum) in
    let fast = within_budget candidate.p95_exec_ms baseline.p95_exec_ms in
    record {
      passed = rescued && (safe && (snapshot && (nothing lost && (nothing differing && fast))));
      target_rescued = rescued;
      unsafe_ok = safe;
      snapshot_ok = snapshot;
      regression_cases = lost;
      non_equivalent_cases = differing;
      performance_ok = fast;
    }

unfoldable pub promotion_gate :
    EvaluationReport → EvaluationReport → Compare → Option (List String) → Py GateResult
unfolding gate_verdict non_equivalent targets_of by_id
promotion_gate candidate baseline compare target_case_ids = do
  let targets = targets_of target_case_ids candidate.cases
  differing ← non_equivalent compare targets (by_id [] candidate.cases) (by_id [] baseline.cases)
  ok (gate_verdict candidate baseline targets differing)
