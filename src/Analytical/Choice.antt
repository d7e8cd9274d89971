-- ===== src/Analytical/Choice.antt =====
-- sqlagent/analytical.py: which candidate select_analytical_candidate returns, by its cost.
use po_c_sqlagent.Base.{
  String, Bool, true, false, ◌≡◌, refl, ◌⊎◌, inl, inr, List, [], ◌∷◌, In, ok, ◌>>=◌, >>=-eq-ok,
  ok-injective, subst, Bool-cases, if◌then◌else◌,
}
use po_c_sqlagent.Python.{Value, Float, Fields, Py}
use po_c_sqlagent.Composer.{Schema}
use po_c_sqlagent.Analytical.Plan.{CompiledPlan}
use po_c_sqlagent.Analytical.Candidates.{
  Candidate, Checked, Pricing, Priced, cost_of, priced, compiled_proposals, explained, cheapest,
  least, choose, select_analytical_candidate,
}
use po_c_sqlagent.Analytical.Chosen.{
  IsProposal, proposals-AllProposals, explained-IsReport, explained-In, proposals-In,
}

-- Comparing two costs, as floats are compared where none of them is NaN.
pub record IsStrict (less : Float → Float → Bool) : Type 0 where
  pub asym : (a b : Float) → less a b ≡ true → less b a ≡ false
  pub trans : (a b c : Float) → less a b ≡ true → less b c ≡ true → less a c ≡ true

-- The threads' results come in any order, each of them once.
pub record IsOrder (finished : List Candidate → List Candidate) : Type 0 where
  pub kept : (cs : List Candidate) (k : Candidate) → In k cs → In k (finished cs)
  pub only : (cs : List Candidate) (k : Candidate) → In k (finished cs) → In k cs

module _ (less : Float → Float → Bool) (strict : IsStrict less) where
  better-not : (x old new : Float) → less new old ≡ true → less x old ≡ false → less x new ≡ false
  better-not x old new h k = elim (Bool-cases (less x new)) [
    | inl e ↦ absurd (cc (strict.trans x new old e h, k))
    | inr e ↦ e
  ]

  irreflexive : (a : Float) → less a a ≡ false
  irreflexive a = elim (Bool-cases (less a a)) [ inl e ↦ strict.asym a a e | inr e ↦ e ]

  -- The result is the first candidate or one of the others, as good as the first and as all others.
  abbrev IsLeast : Priced → List Priced → Priced → Type 0
  IsLeast best cs r =
      ((best ≡ r) ⊎ In r cs)
      × ((x : Float) → less x best.0 ≡ false → less x r.0 ≡ false)
      × ((k : Priced) → In k cs → less k.0 r.0 ≡ false)

  cheapest_step :
      (b : Bool) (best c : Priced) (cs : List Priced) (r : Priced)
      → less c.0 best.0 ≡ b
      → IsLeast (if b then c else best) cs r
      → IsLeast best (c ∷ cs) r
  cheapest_step true best c cs r lower (there, kept, none_less) = (
    inr there,
    λ x h. kept x (better-not x best.0 c.0 lower h),
    λ k m. elim m [
      | inl same ↦ subst (λ (d : Priced). less d.0 r.0 ≡ false) same (kept c.0 (irreflexive c.0))
      | inr later ↦ none_less k later
    ],
  )
  cheapest_step false best c cs r higher (there, kept, none_less) = (
    elim there [ inl same ↦ inl same | inr later ↦ inr (inr later) ],
    kept,
    λ k m. elim m [
      | inl same ↦ subst (λ (d : Priced). less d.0 r.0 ≡ false) same (kept c.0 higher)
      | inr later ↦ none_less k later
    ],
  )

  cheapest-IsLeast : (best : Priced) (cs : List Priced) → IsLeast best cs (cheapest less best cs)
  unfolding cheapest
  cheapest-IsLeast best [] = (inl refl, λ x h. h, λ k m. elim m [ ])
  cheapest-IsLeast best (c ∷ cs) =
      cheapest_step (less c.0 best.0) best c cs (cheapest less best (c ∷ cs)) refl
        (cheapest-IsLeast (if less c.0 best.0 then c else best) cs)

  first-IsLeast :
      (c : Priced) (cs : List Priced)
      → In (cheapest less c cs) (c ∷ cs)
        × ((k : Priced) → In k (c ∷ cs) → less k.0 (cheapest less c cs).0 ≡ false)
  first-IsLeast c cs =
      let (there, kept, none_less) = cheapest-IsLeast c cs in
      (
        there,
        λ k m. elim m [
          | inl same ↦
              subst (λ (d : Priced). less d.0 (cheapest less c cs).0 ≡ false) same
                (kept c.0 (irreflexive c.0))
          | inr later ↦ none_less k later
        ],
      )

-- Every report has its key, and every key is that of a report.
priced-In :
    (floats : Pricing) (cs : List Checked) (ks : List Priced)
    → priced floats cs ≡ ok ks
    → ((k : Priced) → In k ks → In k.1 cs × (cost_of floats k.1.2 ≡ ok k.0))
      × ((c : Checked)
          → In c cs
          → (cost : Float) × In (cost, c) ks × (cost_of floats c.2 ≡ ok cost))
unfolding priced
priced-In floats [] ks h =
    subst
      (λ (ks : List Priced).
        ((k : Priced) → In k ks → In k.1 [] × (cost_of floats k.1.2 ≡ ok k.0))
        × ((c : Checked)
            → In c []
            → (cost : Float) × In (cost, c) ks × (cost_of floats c.2 ≡ ok cost)))
      (ok-injective h) (λ k m. elim m [ ], λ c m. elim m [ ])
priced-In floats (c ∷ cs) ks h =
    let (cost, e₁, h₁) = >>=-eq-ok (cost_of floats c.2) _ h in
    let (more, e₂, h₂) = >>=-eq-ok (priced floats cs) _ h₁ in
    let (back, forth) = priced-In floats cs more e₂ in
    subst
      (λ (ks : List Priced).
        ((k : Priced) → In k ks → In k.1 (c ∷ cs) × (cost_of floats k.1.2 ≡ ok k.0))
        × ((d : Checked)
            → In d (c ∷ cs)
            → (cost : Float) × In (cost, d) ks × (cost_of floats d.2 ≡ ok cost)))
      {x = (cost, c) ∷ more} (ok-injective h₂)
      (
        λ k m. elim m [
          | inl same ↦
              subst (λ (p : Priced). In p.1 (c ∷ cs) × (cost_of floats p.1.2 ≡ ok p.0))
                {x = (cost, c)} same (inl refl, e₁)
          | inr later ↦ let (m', e) = back k later in (inr m', e)
        ],
        λ d m. elim m [
          | inl same ↦
              subst
                (λ (d : Checked).
                  (k : Float) × In (k, d) ((cost, c) ∷ more) × (cost_of floats d.2 ≡ ok k))
                same (cost, inl refl, e₁)
          | inr later ↦ let (k, m', e) = forth d later in (k, inr m', e)
        ],
      )

-- The result is one of the reports, and no report has a lower key.
least-IsCheapest :
    (floats : Pricing) (cs : List Checked) (r : Checked)
    → IsStrict floats.less
    → (priced floats cs >>= least floats) ≡ ok r
    → In r cs
      × ((cost : Float) × (cost_of floats r.2 ≡ ok cost)
          × ((c : Checked)
              → In c cs
              → (other : Float) × (cost_of floats c.2 ≡ ok other)
                × (floats.less other cost ≡ false)))
unfolding least
least-IsCheapest floats cs r strict h =
    let (ks, e, h₁) = >>=-eq-ok (priced floats cs) (least floats) h in least_of ks e h₁
  where
    least_of :
        (ks : List Priced)
        → priced floats cs ≡ ok ks
        → least floats ks ≡ ok r
        → In r cs
          × ((cost : Float) × (cost_of floats r.2 ≡ ok cost)
              × ((c : Checked)
                  → In c cs
                  → (other : Float) × (cost_of floats c.2 ≡ ok other)
                    × (floats.less other cost ≡ false)))
    least_of [] e k = absurd (cc k)
    least_of (p ∷ ps) e k =
        let best = cheapest floats.less p ps in
        let (back, forth) = priced-In floats cs (p ∷ ps) e in
        let (there, none_less) = first-IsLeast floats.less strict p ps in
        let (m, q) = back best there in
        subst
          (λ (r : Checked).
            In r cs
            × ((cost : Float) × (cost_of floats r.2 ≡ ok cost)
                × ((c : Checked)
                    → In c cs
                    → (other : Float) × (cost_of floats c.2 ≡ ok other)
                      × (floats.less other cost ≡ false))))
          (ok-injective k)
          (
            m,
            (
              best.0,
              q,
              λ c is. let (other, m', q') = forth c is in (other, q', none_less (other, c) m'),
            ),
          )

-- The two answers of the model, where both calls return.
abbrev pub Answers : Py Value → Py Value → List Value → Type 0
Answers first second vs =
    (a : Value) × (b : Value) × (first ≡ ok a) × (second ≡ ok b) × (vs ≡ a ∷ b ∷ [])

-- A compiled proposal whose EXPLAIN was read, and none of the proposals with a lower cost.
abbrev pub IsChosen : Schema → List Value → Pricing → (String → Py Value) → Checked → Type 0
IsChosen schema vs floats explain (plan, c, report) =
    IsProposal schema vs (plan, c)
    × (explain c.sql ≡ ok report)
    × ((cost : Float) × (cost_of floats report ≡ ok cost)
        × ((p : Fields) (d : CompiledPlan) (r : Value)
            → IsProposal schema vs (p, d)
            → explain d.sql ≡ ok r
            → (other : Float) × (cost_of floats r ≡ ok other) × (floats.less other cost ≡ false)))

choose-IsChosen :
    (schema : Schema) (vs : List Value) (cs : List Candidate) (floats : Pricing)
    (finished : List Candidate → List Candidate) (explain : String → Py Value) (r : Checked)
    → IsStrict floats.less
    → IsOrder finished
    → compiled_proposals schema vs ≡ ok cs
    → choose floats finished explain cs ≡ ok r
    → IsChosen schema vs floats explain r
unfolding choose
choose-IsChosen schema vs [] floats finished explain r strict order e h = absurd (cc h)
choose-IsChosen schema vs (c ∷ cs) floats finished explain r strict order e h =
    let all_proposals = proposals-AllProposals schema vs (c ∷ cs) e in
    let (there, (cost, q, none_less)) =
      least-IsCheapest floats (explained explain (finished (c ∷ cs))) r strict h in
    let (compiled, reported) = explained-IsReport explain (finished (c ∷ cs)) r there in
    (
      all_proposals (r.0, r.1) (order.only (c ∷ cs) (r.0, r.1) compiled),
      reported,
      (
        cost,
        q,
        λ p d other is q.
            none_less (p, d, other)
              (explained-In explain (finished (c ∷ cs)) p d other
                (order.kept (c ∷ cs) (p, d) (proposals-In schema vs (c ∷ cs) (p, d) e is)) q),
      ),
    )

-- Where floats compare as a strict order and the threads end in any order: the candidate that is
-- returned is one of the two answers of the model, an object with stages, with the plan that it
-- compiles to and the report that EXPLAIN gives of it. The total cost of that report, infinite where it
-- has none or a zero, is a float, and so is that of every answer that compiles and that EXPLAIN reads,
-- and none of these is lower.
pub select-IsChosen :
    (schema : Schema) (first second : Py Value) (floats : Pricing)
    (finished : List Candidate → List Candidate) (explain : String → Py Value) (r : Checked)
    → IsStrict floats.less
    → IsOrder finished
    → select_analytical_candidate schema first second floats finished explain ≡ ok r
    → (vs : List Value) × Answers first second vs × IsChosen schema vs floats explain r
unfolding select_analytical_candidate
select-IsChosen schema first second floats finished explain r strict order h =
    let (a, e₁, h₁) = >>=-eq-ok first _ h in
    let (b, e₂, h₂) = >>=-eq-ok second _ h₁ in
    let (cs, e₃, h₃) = >>=-eq-ok (compiled_proposals schema (a ∷ b ∷ [])) _ h₂ in
    (
      a ∷ b ∷ [],
      (a, b, e₁, e₂, refl),
      choose-IsChosen schema (a ∷ b ∷ []) cs floats finished explain r strict order e₃ h₃,
    )
