-- ===== src/Evaluator/Promote.antt =====
-- sqlagent/evaluator/engine.py, promote_candidate: the flow around the gate.
use Prim.Native.String.{◌++◌}
use po_c_sqlagent.Base.{
  String, Bool, true, false, not, ◌≡◌, refl, sym, ◌∙◌, ap, subst, Option, none, some, List, ok,
  ◌>>=◌, ◌>>◌, guard, >>=-eq-ok, guard-eq-ok, ok-injective, Bool-cases, inl, inr, if◌then◌else◌,
}
use text.Mathlib.TextEquality.{eq_iff}
use po_c_sqlagent.Text.{◌=ₛ◌}
use po_c_sqlagent.Python.{Py, value_error}
use po_c_sqlagent.Evaluator.Gate.{EvaluationReport, GateResult, Compare, promotion_gate, targets_of}
use po_c_sqlagent.Evaluator.Promotion.{IsPromotable, promotion_gate-IsPromotable}

-- The repository and the runs of the evaluator. `main_before` and `candidate_before` are the commits
-- at the start, `main_locked` is main's commit once the lock is held. An evaluation that is repeated
-- may answer otherwise: the flag tells the second from the first. The merge takes the candidate
-- branch by its name: `tip_at_merge` is the commit at which a branch stands by then.
pub record Repository : Type 0 where
  pub current_branch : String
  pub branch_exists : String → Bool
  pub main_before : String
  pub candidate_before : String
  pub main_locked : String
  pub evaluate_refs :
      (again : Bool) (baseline candidate : String) → Py (EvaluationReport × EvaluationReport)
  pub rebase : Py String
  pub tip_at_merge : String → String
  pub merge : String → Py (Unit {0})
  pub compare : Compare

-- The gate's result with what promote_candidate adds to it, the two commits that were compared, and
-- the commit that was merged, if one was.
pub record Promotion : Type 0 where
  pub gate : GateResult
  pub status : String
  pub branch : String
  pub reevaluated : Bool
  pub baseline : String
  pub candidate : String
  pub merged : Option String

abbrev branch_or : String → Option String → String
branch_or current none = current
branch_or current (some b) = if b =ₛ "" then current else b

not_promoted : (s : String) → "rejected" ≡ s → s ≡ "promoted" → ⊥
not_promoted s r p =
    let e : "rejected" ≡ "promoted" = r ∙ p in true_ne_false (ap (λ x. x =ₛ "rejected") e)
  where
    true_ne_false : true ≡ false → ⊥
    true_ne_false h = cc h

module _ (repo : Repository) (target_case_ids : Option (List String)) where
  -- The evaluation of two commits and the gate over it.
  unfoldable pub gated : Bool → String → String → Py GateResult
  unfolding promotion_gate
  gated again baseline candidate = do
    reports ← repo.evaluate_refs again baseline candidate
    promotion_gate reports.1 reports.0 repo.compare target_case_ids

  -- The merge, where the gate has passed.
  unfoldable pub conclude : String → Bool → String → String → GateResult → Py Promotion
  conclude branch again baseline candidate g =
      let result : String → Option String → Promotion = λ status merged. record {
        gate = g;
        status = status;
        branch = branch;
        reevaluated = again;
        baseline = baseline;
        candidate = candidate;
        merged = merged;
      } in
      if g.passed
      then repo.merge branch >> ok (result "promoted" (some (repo.tip_at_merge branch)))
      else ok (result "rejected" none)

  -- Main has advanced: the candidate is rebased and the gate repeated.
  unfoldable pub repeat_gate : String → Py Promotion
  unfolding gated conclude
  repeat_gate branch = do
    tip ← repo.rebase
    g ← gated true repo.main_locked tip
    conclude branch true repo.main_locked tip g

  unfoldable pub promote_candidate : Option String → Py Promotion
  unfolding gated conclude repeat_gate
  promote_candidate candidate_branch = do
    let branch = branch_or repo.current_branch candidate_branch
    guard (not (branch =ₛ "main"))
        (value_error "promotion requires an evolution/* candidate branch")
    guard (repo.branch_exists branch) (value_error ("candidate branch does not exist: " ++ branch))
    g ← gated false repo.main_before repo.candidate_before
    if repo.main_locked =ₛ repo.main_before
        then conclude branch false repo.main_before repo.candidate_before g
        else repeat_gate branch

  -- A commit was merged: the tip of the branch. Where that is the commit that was evaluated, the very
  -- pair of it and main as it stands under the lock has passed the gate.
  pub record IsEarned (p : Promotion) (tip : String) : Type 0 where
    pub merged : p.merged ≡ some tip
    pub by_name : repo.merge p.branch ≡ ok tt
    pub is_tip : repo.tip_at_merge p.branch ≡ tip
    pub reports : EvaluationReport × EvaluationReport
    pub evaluated : repo.evaluate_refs p.reevaluated repo.main_locked tip ≡ ok reports
    pub promotable :
        IsPromotable reports.1 reports.0 repo.compare (targets_of target_case_ids reports.1.cases)

  conclude-IsEarned :
      (branch : String) (again : Bool) (baseline candidate : String) (g : GateResult)
      (p : Promotion)
      → gated again baseline candidate ≡ ok g
      → baseline ≡ repo.main_locked
      → conclude branch again baseline candidate g ≡ ok p
      → p.status ≡ "promoted"
      → repo.tip_at_merge p.branch ≡ p.candidate
      → IsEarned p p.candidate
  unfolding conclude gated
  conclude-IsEarned branch again baseline candidate g p e on_main h promoted unmoved =
      let (reports, evaluated, e') = >>=-eq-ok (repo.evaluate_refs again baseline candidate) _ e in
      elim (Bool-cases g.passed) [
        | inl passed ↦
            let (u, merged, h') = >>=-eq-ok (repo.merge branch) _ (rw passed at h) in
            subst
              (λ (q : Promotion). repo.tip_at_merge q.branch ≡ q.candidate → IsEarned q q.candidate)
              (ok-injective h')
              (λ (still : repo.tip_at_merge branch ≡ candidate). record {
                merged = ap some still;
                by_name = merged;
                is_tip = still;
                reports = reports;
                evaluated =
                    subst (λ b. repo.evaluate_refs again b candidate ≡ ok reports) on_main
                      evaluated;
                promotable =
                    promotion_gate-IsPromotable reports.1 reports.0 repo.compare target_case_ids g
                      e' passed;
              })
              unmoved
        | inr failed ↦ absurd (
            not_promoted p.status (ap (λ (x : Promotion). x.status) (ok-injective (rw failed at h)))
              promoted)
      ]

  repeat_gate-IsEarned :
      (branch : String) (p : Promotion)
      → repeat_gate branch ≡ ok p
      → p.status ≡ "promoted"
      → repo.tip_at_merge p.branch ≡ p.candidate
      → IsEarned p p.candidate
  unfolding repeat_gate
  repeat_gate-IsEarned branch p h promoted unmoved =
      let (tip, rebased, h₁) = >>=-eq-ok repo.rebase _ h in
      let (g, e, h₂) = >>=-eq-ok (gated true repo.main_locked tip) _ h₁ in
      conclude-IsEarned branch true repo.main_locked tip g p e refl h₂ promoted unmoved

  -- Where the tip of the candidate branch at the merge is still the commit that was evaluated: a
  -- promotion has merged that commit, and the reports of main as it stands under the lock and of that
  -- commit have passed the gate, also where main has advanced in the meantime.
  pub promote_candidate-IsEarned :
      (candidate_branch : Option String) (p : Promotion)
      → promote_candidate candidate_branch ≡ ok p
      → p.status ≡ "promoted"
      → repo.tip_at_merge p.branch ≡ p.candidate
      → IsEarned p p.candidate
  unfolding promote_candidate
  promote_candidate-IsEarned candidate_branch p h promoted unmoved =
      let branch = branch_or repo.current_branch candidate_branch in
      let (other, h₁) = guard-eq-ok (not (branch =ₛ "main")) _ _ h in
      let (exists, h₂) = guard-eq-ok (repo.branch_exists branch) _ _ h₁ in
      let (g, e, h₃) = >>=-eq-ok (gated false repo.main_before repo.candidate_before) _ h₂ in
      elim (Bool-cases (repo.main_locked =ₛ repo.main_before)) [
        | inl still ↦
            conclude-IsEarned branch false repo.main_before repo.candidate_before g p e
              (sym ((eq_iff _ _).0 still)) (rw still at h₃) promoted unmoved
        | inr moved ↦ repeat_gate-IsEarned branch p (rw moved at h₃) promoted unmoved
      ]
