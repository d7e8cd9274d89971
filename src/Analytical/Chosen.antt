-- ===== src/Analytical/Chosen.antt =====
-- sqlagent/analytical.py: the candidate that select_analytical_candidate returns.
use po_c_sqlagent.Base.{
  String, true, ◌≡◌, refl, inl, inr, List, [], ◌∷◌, In, ok, err, >>=-eq-ok, ok-injective, subst,
  sym, ap, Bool-cases,
}
use po_c_sqlagent.Python.{
  Value, null, bool, int, float, str, list, dict, Fields, Py, value_error, truthy, get,
}
use po_c_sqlagent.Composer.{Schema}
use po_c_sqlagent.Analytical.Plan.{CompiledPlan, compile_analytical_plan}
use po_c_sqlagent.Analytical.Candidates.{
  Candidate, Checked, keep_compiled, compiled_proposals, keep_checked, explained,
}

-- A proposal with stages, and the plan that it compiles to.
abbrev pub IsProposal : Schema → List Value → Candidate → Type 0
IsProposal schema vs (plan, c) =
    In (dict plan) vs
    × (truthy (get "stages" plan) ≡ true)
    × (compile_analytical_plan schema plan ≡ ok c)

abbrev pub IsReport : (String → Py Value) → List Candidate → Checked → Type 0
IsReport explain cs (plan, c, report) = In (plan, c) cs × (explain c.sql ≡ ok report)

IsProposal-later :
    (schema : Schema) (v : Value) (vs : List Value) (cs : List Candidate)
    → ((k : Candidate) → In k cs → IsProposal schema vs k)
    → (k : Candidate) → In k cs
    → IsProposal schema (v ∷ vs) k
IsProposal-later schema v vs cs h k m = let (there, staged, e) = h k m in (inr there, staged, e)

abbrev pub AllProposals : Schema → List Value → List Candidate → Type 0
AllProposals schema vs cs = (k : Candidate) → In k cs → IsProposal schema vs k

keep-AllProposals :
    (schema : Schema) (plan : Fields) (vs : List Value) (r : Py CompiledPlan)
    (rest : Py (List Candidate)) (cs : List Candidate)
    → compile_analytical_plan schema plan ≡ r
    → truthy (get "stages" plan) ≡ true
    → ((ds : List Candidate) → rest ≡ ok ds → AllProposals schema vs ds)
    → keep_compiled plan r rest ≡ ok cs
    → AllProposals schema (dict plan ∷ vs) cs
unfolding keep_compiled
keep-AllProposals schema plan vs (ok c) rest cs e staged h k =
    let (more, e₁, r₁) = >>=-eq-ok rest _ k in
    subst (AllProposals schema (dict plan ∷ vs)) {x = (plan, c) ∷ more} (ok-injective r₁) (λ p m.
      elim m [
        | inl same ↦ subst (IsProposal schema (dict plan ∷ vs)) same (inl refl, staged, e)
        | inr later ↦ IsProposal-later schema (dict plan) vs more (h more e₁) p later
      ])
keep-AllProposals schema plan vs (err (value_error m)) rest cs e staged h k =
    IsProposal-later schema (dict plan) vs cs (h cs k)
keep-AllProposals schema plan vs (err _) rest cs e staged h k = absurd (cc k)

pub proposals-AllProposals :
    (schema : Schema) (vs : List Value) (cs : List Candidate)
    → compiled_proposals schema vs ≡ ok cs
    → AllProposals schema vs cs
unfolding compiled_proposals
proposals-AllProposals schema [] cs h =
    subst (AllProposals schema []) (ok-injective h) (λ k m. elim m [ ])
proposals-AllProposals schema (dict plan ∷ vs) cs h =
    elim (Bool-cases (truthy (get "stages" plan))) [
      | inl staged ↦
          keep-AllProposals schema plan vs (compile_analytical_plan schema plan)
            (compiled_proposals schema vs) cs refl staged
            (λ ds e. proposals-AllProposals schema vs ds e) (rw staged at h)
      | inr bare ↦
          IsProposal-later schema (dict plan) vs cs
            (proposals-AllProposals schema vs cs (rw bare at h))
    ]
proposals-AllProposals schema (null ∷ vs) cs h =
    IsProposal-later schema null vs cs (proposals-AllProposals schema vs cs h)
proposals-AllProposals schema (bool b ∷ vs) cs h =
    IsProposal-later schema (bool b) vs cs (proposals-AllProposals schema vs cs h)
proposals-AllProposals schema (int n ∷ vs) cs h =
    IsProposal-later schema (int n) vs cs (proposals-AllProposals schema vs cs h)
proposals-AllProposals schema (float f ∷ vs) cs h =
    IsProposal-later schema (float f) vs cs (proposals-AllProposals schema vs cs h)
proposals-AllProposals schema (str s ∷ vs) cs h =
    IsProposal-later schema (str s) vs cs (proposals-AllProposals schema vs cs h)
proposals-AllProposals schema (list l ∷ vs) cs h =
    IsProposal-later schema (list l) vs cs (proposals-AllProposals schema vs cs h)

keep_checked-IsReport :
    (explain : String → Py Value) (cs : List Candidate) (plan : Fields) (c : CompiledPlan)
    (r : Py Value) (rest : List Checked)
    → explain c.sql ≡ r
    → ((k : Checked) → In k rest → IsReport explain cs k)
    → (k : Checked) → In k (keep_checked (plan, c) r rest)
    → IsReport explain ((plan, c) ∷ cs) k
unfolding keep_checked
keep_checked-IsReport explain cs plan c (ok report) rest e h k (inl same) =
    subst (IsReport explain ((plan, c) ∷ cs)) same (inl refl, e)
keep_checked-IsReport explain cs plan c (ok report) rest e h k (inr m) =
    let (there, q) = h k m in (inr there, q)
keep_checked-IsReport explain cs plan c (err x) rest e h k m =
    let (there, q) = h k m in (inr there, q)

pub explained-IsReport :
    (explain : String → Py Value) (cs : List Candidate) (k : Checked)
    → In k (explained explain cs)
    → IsReport explain cs k
unfolding explained
explained-IsReport explain [] k m = elim m [ ]
explained-IsReport explain ((plan, c) ∷ cs) k m =
    keep_checked-IsReport explain cs plan c (explain c.sql) (explained explain cs) refl
      (explained-IsReport explain cs) k m

keep_checked-In :
    (plan : Fields) (c : CompiledPlan) (r : Py Value) (rest : List Checked) (k : Checked)
    → In k rest
    → In k (keep_checked (plan, c) r rest)
unfolding keep_checked
keep_checked-In plan c (ok report) rest k m = inr m
keep_checked-In plan c (err x) rest k m = m

keep_checked-head :
    (plan : Fields) (c : CompiledPlan) (r : Py Value) (rest : List Checked) (report : Value)
    → r ≡ ok report
    → In (plan, c, report) (keep_checked (plan, c) r rest)
unfolding keep_checked
keep_checked-head plan c (ok r) rest report e =
    inl (ap (λ (v : Value). (plan, c, v)) (ok-injective e))
keep_checked-head plan c (err x) rest report e = absurd (cc e)

pub explained-In :
    (explain : String → Py Value) (cs : List Candidate) (plan : Fields) (c : CompiledPlan)
    (report : Value)
    → In (plan, c) cs
    → explain c.sql ≡ ok report
    → In (plan, c, report) (explained explain cs)
unfolding explained
explained-In explain [] plan c report m e = elim m [ ]
explained-In explain ((p, d) ∷ cs) plan c report (inl same) e =
    subst (λ (k : Candidate). In (k.0, k.1, report) (explained explain ((p, d) ∷ cs))) same
      (keep_checked-head p d (explain d.sql) (explained explain cs) report
        (subst (λ (k : Candidate). explain k.1.sql ≡ ok report) (sym same) e))
explained-In explain ((p, d) ∷ cs) plan c report (inr m) e =
    keep_checked-In p d (explain d.sql) (explained explain cs) (plan, c, report)
      (explained-In explain cs plan c report m e)

kept_later :
    (plan : Fields) (r : Py CompiledPlan) (rest : Py (List Candidate)) (cs : List Candidate)
    (k : Candidate)
    → ((ds : List Candidate) → rest ≡ ok ds → In k ds)
    → keep_compiled plan r rest ≡ ok cs
    → In k cs
unfolding keep_compiled
kept_later plan (ok c) rest cs k h e =
    let (more, e₁, r₁) = >>=-eq-ok rest _ e in
    subst (λ l. In k l) {x = (plan, c) ∷ more} (ok-injective r₁) (inr (h more e₁))
kept_later plan (err (value_error m)) rest cs k h e = h cs e
kept_later plan (err _) rest cs k h e = absurd (cc e)

kept_head :
    (plan : Fields) (c : CompiledPlan) (r : Py CompiledPlan) (rest : Py (List Candidate))
    (cs : List Candidate)
    → r ≡ ok c
    → keep_compiled plan r rest ≡ ok cs
    → In (plan, c) cs
unfolding keep_compiled
kept_head plan c (ok d) rest cs same e =
    let (more, e₁, r₁) = >>=-eq-ok rest _ e in
    subst (λ l. In (plan, c) l) {x = (plan, d) ∷ more} (ok-injective r₁)
      (inl (ap (λ (k : CompiledPlan). (plan, k)) (ok-injective same)))
kept_head plan c (err x) rest cs same e = absurd (cc same)

dict-injective : {a b : Fields} → ◌≡◌ {A = Value} (dict a) (dict b) → a ≡ b
dict-injective h = cc

-- Every proposal that compiles is kept.
pub proposals-In :
    (schema : Schema) (vs : List Value) (cs : List Candidate) (k : Candidate)
    → compiled_proposals schema vs ≡ ok cs
    → IsProposal schema vs k
    → In k cs
unfolding compiled_proposals
proposals-In schema [] cs k h (there, staged, e) = elim there [ ]
proposals-In schema (dict plan ∷ vs) cs (p, d) h (inl same, staged, e) =
    let e₁ : plan ≡ p = dict-injective same in
    subst (λ (q : Fields). In (q, d) cs) e₁
      (kept_head plan d (compile_analytical_plan schema plan) (compiled_proposals schema vs) cs
        (subst (λ (q : Fields). compile_analytical_plan schema q ≡ ok d) (sym e₁) e)
        (rw (subst (λ (q : Fields). truthy (get "stages" q) ≡ true) (sym e₁) staged) at h))
proposals-In schema (dict plan ∷ vs) cs k h (inr later, staged, e) =
    elim (Bool-cases (truthy (get "stages" plan))) [
      | inl full ↦
          kept_later plan (compile_analytical_plan schema plan) (compiled_proposals schema vs) cs k
            (λ ds q. proposals-In schema vs ds k q (later, staged, e)) (rw full at h)
      | inr bare ↦ proposals-In schema vs cs k (rw bare at h) (later, staged, e)
    ]
proposals-In schema (null ∷ vs) cs k h (inl same, staged, e) = absurd (cc same)
proposals-In schema (null ∷ vs) cs k h (inr later, staged, e) =
    proposals-In schema vs cs k h (later, staged, e)
proposals-In schema (bool b ∷ vs) cs k h (inl same, staged, e) = absurd (cc same)
proposals-In schema (bool b ∷ vs) cs k h (inr later, staged, e) =
    proposals-In schema vs cs k h (later, staged, e)
proposals-In schema (int n ∷ vs) cs k h (inl same, staged, e) = absurd (cc same)
proposals-In schema (int n ∷ vs) cs k h (inr later, staged, e) =
    proposals-In schema vs cs k h (later, staged, e)
proposals-In schema (float f ∷ vs) cs k h (inl same, staged, e) = absurd (cc same)
proposals-In schema (float f ∷ vs) cs k h (inr later, staged, e) =
    proposals-In schema vs cs k h (later, staged, e)
proposals-In schema (str s ∷ vs) cs k h (inl same, staged, e) = absurd (cc same)
proposals-In schema (str s ∷ vs) cs k h (inr later, staged, e) =
    proposals-In schema vs cs k h (later, staged, e)
proposals-In schema (list l ∷ vs) cs k h (inl same, staged, e) = absurd (cc same)
proposals-In schema (list l ∷ vs) cs k h (inr later, staged, e) =
    proposals-In schema vs cs k h (later, staged, e)
