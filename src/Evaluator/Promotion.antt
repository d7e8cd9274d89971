-- ===== src/Evaluator/Promotion.antt =====
-- What a passed gate says of the candidate.
use text.Mathlib.TextEquality.{eq_iff}
use po_c_sqlagent.Base.{
  String, Bool, true, false, not, ◌&&◌, ==_iff, ◌≡◌, refl, sym, ◌∙◌, ap, subst, Option, some, List,
  [], ◌∷◌, map, select, all, All, ok, >>=-eq-ok, ok-injective, arith, Bool-cases, Option-cases, inl,
  inr, if◌then◌else◌,
}
use po_c_sqlagent.Text.{member}
use po_c_sqlagent.Evaluator.Gate.{
  CaseReport, EvaluationReport, GateResult, by_id, case?, is_answered, is_failed, targets_of,
  is_rescued, is_regression, Compare, equivalent, differs, non_equivalent, within_budget, nothing,
  gate_verdict, promotion_gate,
}

-- The two reports agree on a case that the baseline has answered, as far as it is kept.
pub record IsKept (compare : Compare) (targets : List String) (candidate : List CaseReport)
    (old : CaseReport) : Type 0 where
  pub not_lost :
      is_answered old ≡ true
      → (new : CaseReport) × (case? old.id candidate ≡ some new) × (is_failed new ≡ false)
  pub same_result :
      (new : CaseReport)
      → case? old.id candidate ≡ some new
      → member old.id targets ≡ false
      → is_answered old ≡ true
      → is_answered new ≡ true
      → equivalent compare old new ≡ ok true

pub record IsPromotable (candidate baseline : EvaluationReport) (compare : Compare)
    (targets : List String) : Type 0 where
  pub rescued :
      All (λ i. is_rescued (by_id [] baseline.cases) (by_id [] candidate.cases) i ≡ true) targets
  pub kept : All (IsKept compare targets (by_id [] candidate.cases)) (by_id [] baseline.cases)
  pub safe : candidate.unsafe ≡ 0
  pub same_database : candidate.database_checksum ≡ baseline.database_checksum
  pub same_corpus : candidate.corpus_checksum ≡ baseline.corpus_checksum
  pub fast : within_budget candidate.p95_exec_ms baseline.p95_exec_ms ≡ true

all-All : (p : String → Bool) (xs : List String) → all p xs ≡ true → All (λ x. p x ≡ true) xs
unfolding all
all-All p [] h = tt
all-All p (x ∷ xs) h = (ground arith, all-All p xs (ground arith))

twice_not : (b : Bool) → not (not b) ≡ false → b ≡ false
twice_not b h = ground arith

opposite : (b : Bool) → not b ≡ false → b ≡ true
opposite b h = ground arith

kept-not_lost :
    (candidate : List CaseReport) (old : CaseReport)
    → is_regression candidate old ≡ false
    → is_answered old ≡ true
    → (new : CaseReport) × (case? old.id candidate ≡ some new) × (is_failed new ≡ false)
unfolding is_regression
kept-not_lost candidate old h answered = elim (Option-cases (case? old.id candidate)) [
  | inl missing ↦ absurd (cc (rw (answered, missing) at h))
  | inr (new, found) ↦ (new, found, twice_not (is_failed new) (rw (answered, found) at h))
]

kept-same_result :
    (compare : Compare) (targets : List String) (old new : CaseReport)
    → differs compare targets old (some new) ≡ ok false
    → member old.id targets ≡ false
    → is_answered old ≡ true
    → is_answered new ≡ true
    → equivalent compare old new ≡ ok true
unfolding differs
kept-same_result compare targets old new h other answered answered' =
    let (b, e, h') =
      >>=-eq-ok (equivalent compare old new) _ (rw (other, answered, answered') at h) in
    e ∙ ap ok (opposite b (ok-injective h'))

chosen-nothing :
    (b : Bool) (i : String) (xs : List String)
    → nothing (if b then i ∷ xs else xs) ≡ true
    → (b ≡ false) × (nothing xs ≡ true)
chosen-nothing true i xs h = absurd (cc h)
chosen-nothing false i xs h = (refl, h)

-- Where no case differs, each was compared and found the same.
non_equivalent-All :
    (compare : Compare) (targets : List String) (candidate olds : List CaseReport)
    (xs : List String)
    → non_equivalent compare targets candidate olds ≡ ok xs
    → nothing xs ≡ true
    → All (λ old. differs compare targets old (case? old.id candidate) ≡ ok false) olds
unfolding non_equivalent
non_equivalent-All compare targets candidate [] xs h none_left = tt
non_equivalent-All compare targets candidate (old ∷ rest) xs h none_left =
    let (b, e, h₁) = >>=-eq-ok (differs compare targets old (case? old.id candidate)) _ h in
    let (others, e', h₂) = >>=-eq-ok (non_equivalent compare targets candidate rest) _ h₁ in
    let (same, rest_none) =
      chosen-nothing b old.id others
        (subst (λ l. nothing l ≡ true) (sym (ok-injective h₂)) none_left) in
    (e ∙ ap ok same, non_equivalent-All compare targets candidate rest others e' rest_none)

no_regression :
    (candidate olds : List CaseReport)
    → nothing (map (λ c. c.id) (select (is_regression candidate) olds)) ≡ true
    → All (λ old. is_regression candidate old ≡ false) olds
unfolding select
no_regression candidate [] h = tt
no_regression candidate (old ∷ rest) h = elim (Bool-cases (is_regression candidate old)) [
  | inl lost ↦ absurd (cc (rw lost at h))
  | inr kept ↦ (kept, no_regression candidate rest (rw kept at h))
]

IsKept-All :
    (compare : Compare) (targets : List String) (candidate olds : List CaseReport)
    → All (λ old. is_regression candidate old ≡ false) olds
    → All (λ old. differs compare targets old (case? old.id candidate) ≡ ok false) olds
    → All (IsKept compare targets candidate) olds
IsKept-All compare targets candidate [] h h' = tt
IsKept-All compare targets candidate (old ∷ rest) h h' = (
  record {
    not_lost = kept-not_lost candidate old h.0;
    same_result = λ new found.
        kept-same_result compare targets old new
          (subst (λ o. differs compare targets old o ≡ ok false) found h'.0);
  },
  IsKept-All compare targets candidate rest h.1 h'.1,
)

all_six :
    (a b c d e f g : Bool)
    → a && (b && ((c && d) && (e && (f && g)))) ≡ true
    → (a ≡ true) × (b ≡ true) × (c ≡ true) × (d ≡ true) × (e ≡ true) × (f ≡ true) × (g ≡ true)
all_six a b c d e f g h = ground arith

-- A candidate that passes the gate: every target failed before and is answered or clarified now;
-- every case that the baseline answered is there and has not failed, and where it is answered again
-- and no target, the database finds the two queries equivalent or, where it cannot compare them, the
-- results have one hash; nothing was unsafe; both ran on the same data and corpus; and the p95 time
-- is at most one percent above the baseline's.
pub promotion_gate-IsPromotable :
    (candidate baseline : EvaluationReport) (compare : Compare)
    (target_case_ids : Option (List String)) (g : GateResult)
    → promotion_gate candidate baseline compare target_case_ids ≡ ok g
    → g.passed ≡ true
    → IsPromotable candidate baseline compare (targets_of target_case_ids candidate.cases)
unfolding promotion_gate gate_verdict
promotion_gate-IsPromotable candidate baseline compare target_case_ids g h passed =
    let targets = targets_of target_case_ids candidate.cases in
    let old = by_id [] baseline.cases in
    let new = by_id [] candidate.cases in
    let (differing, e, h₁) = >>=-eq-ok (non_equivalent compare targets new old) _ h in
    let (rescued, safe, database, corpus, lost, same, fast) =
      all_six _ _ _ _ _ _ _
        (subst (λ (x : GateResult). x.passed ≡ true) (sym (ok-injective h₁)) passed) in
    record {
      rescued = all-All (is_rescued old new) targets rescued;
      kept =
          IsKept-All compare targets new old (no_regression new old lost)
            (non_equivalent-All compare targets new old differing e same);
      safe = (==_iff candidate.unsafe 0).0 safe;
      same_database = (eq_iff _ _).0 database;
      same_corpus = (eq_iff _ _).0 corpus;
      fast = fast;
    }
