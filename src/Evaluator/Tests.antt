-- ===== src/Evaluator/Tests.antt =====
-- A candidate that passes the gate.
use po_c_sqlagent.Base.{true, false, ◌≡◌, refl, none, some, [], ◌∷◌, ok}
use po_c_sqlagent.Evaluator.Gate.{
  CaseReport, EvaluationReport, GateResult, promotion_gate, targets_of,
}
use po_c_sqlagent.Evaluator.Promote.{
  Repository, Promotion, promote_candidate, IsEarned, promote_candidate-IsEarned,
}
use po_c_sqlagent.Evaluator.Promotion.{IsPromotable, promotion_gate-IsPromotable}

abbrev revenue_case : CaseReport
revenue_case = record {
  id = "1";
  outcome = "answered";
  sql = some "SELECT 1";
  result_hash = some "h1";
  expected_change = false;
}

abbrev broken_case : CaseReport
broken_case = record {
  id = "2";
  outcome = "pipeline_failed";
  sql = none;
  result_hash = none;
  expected_change = true;
}

abbrev mended_case : CaseReport
mended_case = record {
  id = "2";
  outcome = "answered";
  sql = some "SELECT 2";
  result_hash = some "h2";
  expected_change = true;
}

abbrev before : EvaluationReport
before = record {
  cases = revenue_case ∷ broken_case ∷ [];
  unsafe = 0;
  p95_exec_ms = some 1000;
  corpus_checksum = "c";
  database_checksum = "d";
}

abbrev after : EvaluationReport
after = record before { cases = revenue_case ∷ mended_case ∷ []; p95_exec_ms = some 1010 }

abbrev gate : GateResult
gate = record {
  passed = true;
  target_rescued = true;
  unsafe_ok = true;
  snapshot_ok = true;
  regression_cases = [];
  non_equivalent_cases = [];
  performance_ok = true;
}

gate_passes : promotion_gate after before none none ≡ ok gate
unfolding promotion_gate
gate_passes = refl

promotion_gate-IsPromotable_example : IsPromotable after before none (targets_of none after.cases)
promotion_gate-IsPromotable_example =
    promotion_gate-IsPromotable after before none none gate gate_passes refl

-- Main has moved from m1 to m2: the candidate c1 is rebased to c2 and evaluated again.
abbrev moved_main : Repository
moved_main = record {
  current_branch = "evolution/a";
  branch_exists = λ b. true;
  main_before = "m1";
  candidate_before = "c1";
  main_locked = "m2";
  evaluate_refs = λ again b c. ok (before, after);
  rebase = ok "c2";
  tip_at_merge = λ b. "c2";
  merge = λ b. ok tt;
  compare = none;
}

abbrev promotion : Promotion
promotion = record {
  gate = gate;
  status = "promoted";
  branch = "evolution/a";
  reevaluated = true;
  baseline = "m2";
  candidate = "c2";
  merged = some "c2";
}

promotion_runs : promote_candidate moved_main none none ≡ ok promotion
unfolding promote_candidate
promotion_runs = refl

promote_candidate-IsEarned_example : IsEarned moved_main none promotion "c2"
promote_candidate-IsEarned_example =
    promote_candidate-IsEarned moved_main none none promotion promotion_runs refl refl

-- A commit that reaches the branch after its evaluation is merged without having passed the gate.
late_commit_merged :
    promote_candidate (record moved_main { tip_at_merge = λ b. "c3" }) none none
    ≡ ok (record promotion { merged = some "c3" })
unfolding promote_candidate
late_commit_merged = refl
