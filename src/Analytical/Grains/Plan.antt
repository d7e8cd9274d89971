-- ===== src/Analytical/Grains/Plan.antt =====
-- The grain of a whole plan.
use po_c_sqlagent.Base.{
  ℕ, ◌+◌, String, true, ◌≡◌, refl, inl, inr, List, [], ◌∷◌, All, In, ok, some, >>=-eq-ok,
  guard-eq-ok, if-eq-ok, ok-injective, subst, arith, Bool-cases, some-injective, if◌then◌else◌,
}
use text.Mathlib.TextEquality.{eq_iff}
use po_c_sqlagent.Text.{◌=ₛ◌}
use po_c_sqlagent.Python.{Value, dict, list, cons, Fields, get, to_list}
use po_c_sqlagent.Composer.{Schema, columns?, has_table, text_or, sorted, insert_sorted, le_text}
use po_c_sqlagent.Analytical.Terms.{ident}
use po_c_sqlagent.Analytical.Tables.{Stages, assign, item}
use po_c_sqlagent.Analytical.Stages.{Compiled}
use po_c_sqlagent.Analytical.Derived.{compile_stage, keeps}
use po_c_sqlagent.Analytical.Plan.{
  CompiledPlan, stage_id, checked_stage, compile_stages, compile_list, compile_plan, compile,
  final_id,
}
use po_c_sqlagent.Analytical.Scoped.Inputs.{item-found}
use po_c_sqlagent.Analytical.Grains.Kinds.{
  Within, Grained, GrainKept, scan-GrainKept, filter-GrainKept, join-GrainKept, aggregate-GrainKept,
  union-GrainKept, project-GrainKept,
}

stage-GrainKept :
    (schema : Schema) (known : String → String → String) (kind : String) (fs : Fields)
    (outputs grains : Stages) (c : Compiled)
    → Grained outputs grains
    → keeps fs ≡ true
    → compile_stage schema known kind fs outputs grains ≡ ok c
    → GrainKept c
unfolding compile_stage
stage-GrainKept schema known kind fs outputs grains c g kept h =
    if-eq-ok (kind =ₛ "scan") _ _ c (scan-GrainKept schema fs c)
      (if-eq-ok (kind =ₛ "filter") _ _ c (filter-GrainKept outputs grains fs c g) (
        if-eq-ok (kind =ₛ "join") _ _ c (join-GrainKept known outputs grains fs c g) (
          if-eq-ok (kind =ₛ "aggregate") _ _ c (aggregate-GrainKept outputs grains fs c) (
            if-eq-ok (kind =ₛ "union_all") _ _ c (union-GrainKept outputs grains fs c g)
              (project-GrainKept outputs grains kind fs c g kept)))))
      h

checked-GrainKept :
    (schema : Schema) (known : String → String → String) (position : ℕ) (fs : Fields)
    (outputs grains : Stages) (id : String) (c : Compiled)
    → Grained outputs grains
    → keeps fs ≡ true
    → checked_stage schema known position fs outputs grains ≡ ok (id, c)
    → GrainKept c
unfolding checked_stage
checked-GrainKept schema known position fs outputs grains id c g kept h =
    let (sql, e₁, h₁) = >>=-eq-ok (ident (stage_id position fs)) _ h in
    let (typed, h₂) = guard-eq-ok _ _ _ h₁ in
    let (d, e₃, h₃) =
      >>=-eq-ok (compile_stage schema known (text_or "type" "" fs) fs outputs grains) _ h₂ in
    subst (λ (p : String × Compiled). GrainKept p.1) (ok-injective h₃)
      (stage-GrainKept schema known (text_or "type" "" fs) fs outputs grains d g kept e₃)

columns?-assign :
    (j k : String) (v : List String) (d : Stages)
    → columns? k (assign j v d) ≡ (if j =ₛ k then some v else columns? k d)
unfolding columns? assign
columns?-assign j k v [] = refl
columns?-assign j k v ((i, w) ∷ d) =
    ground (arith, eq_iff j k, eq_iff i j, eq_iff i k, columns?-assign j k v d)

assign-Grained :
    (id : String) (columns grain : List String) (outputs grains : Stages)
    → Grained outputs grains
    → Within grain columns
    → Grained (assign id columns outputs) (assign id grain grains)
assign-Grained id columns grain outputs grains g kept k cols gr e₁ e₂ =
    elim (Bool-cases (id =ₛ k)) [
      | inl same ↦
          let c = some-injective (rw (columns?-assign, same) at e₁) in
          let d = some-injective (rw (columns?-assign, same) at e₂) in
          subst (λ l. Within gr l) c (subst (λ l. Within l columns) d kept)
      | inr other ↦
          g k cols gr (rw (columns?-assign, other) at e₁) (rw (columns?-assign, other) at e₂)
    ]

-- No stage asks to drop the columns of its input.
abbrev pub Keeps : Value → Type 0
Keeps (dict fs) = keeps fs ≡ true
Keeps _ = Unit

stages-Grained :
    (schema : Schema) (known : String → String → String) (position : ℕ) (vs : List Value)
    (outputs grains : Stages) (r : List String × Stages × Stages)
    → Grained outputs grains
    → All Keeps vs
    → compile_stages schema known position vs outputs grains ≡ ok r
    → Grained r.1 r.2
unfolding compile_stages
stages-Grained schema known position [] outputs grains r g kept h =
    subst (λ (p : List String × Stages × Stages). Grained p.1 p.2) (ok-injective h) g
stages-Grained schema known position (dict fs ∷ vs) outputs grains r g kept h =
    let ((id, (sql, columns, grain)), e₁, h₁) =
      >>=-eq-ok (checked_stage schema known position fs outputs grains) _ h in
    let (rest, e₂, h₂) =
      >>=-eq-ok
        (compile_stages schema known (position + 1) vs (assign id columns outputs)
          (assign id grain grains))
        _ h₁ in
    subst (λ (p : List String × Stages × Stages). Grained p.1 p.2) (ok-injective h₂)
      (stages-Grained schema known (position + 1) vs (assign id columns outputs)
        (assign id grain grains) rest
        (assign-Grained id columns grain outputs grains g (
          checked-GrainKept schema known position fs outputs grains id (sql, columns, grain) g
            kept.0 e₁))
        kept.1 e₂)
stages-Grained schema known position _ outputs grains r g kept h = absurd (cc h)

In-insert_sorted :
    (x y : String) (ys : List String)
    → ((x ≡ y) → In y (insert_sorted x ys)) × (In y ys → In y (insert_sorted x ys))
unfolding insert_sorted
In-insert_sorted x y [] = (λ e. inl e, λ m. elim m [ ])
In-insert_sorted x y (z ∷ zs) = elim (Bool-cases (le_text x z)) [
  | inl first ↦ rw first (λ e. inl e, λ m. inr m)
  | inr later ↦ rw later (
    λ e. inr ((In-insert_sorted x y zs).0 e),
    λ m. elim m [ inl e ↦ inl e | inr n ↦ inr ((In-insert_sorted x y zs).1 n) ],
  )
]

In-sorted : (y : String) (xs : List String) → In y xs → In y (sorted xs)
unfolding sorted
In-sorted y [] h = elim h [ ]
In-sorted y (x ∷ xs) (inl e) = (In-insert_sorted x y (sorted xs)).0 e
In-sorted y (x ∷ xs) (inr m) = (In-insert_sorted x y (sorted xs)).1 (In-sorted y xs m)

abbrev GrainOf : CompiledPlan → Type 0
GrainOf c = Within c.grain c.output_columns

list-GrainOf :
    (schema : Schema) (known : String → String → String) (plan : Fields) (vs : List Value)
    (c : CompiledPlan)
    → All Keeps vs
    → compile_list schema known plan vs ≡ ok c
    → GrainOf c
unfolding compile_list columns?
list-GrainOf schema known plan vs c kept h =
    let ((sqls, outputs, grains), e₁, h₁) =
      >>=-eq-ok (compile_stages schema known 1 vs [] []) _ h in
    let final = final_id plan vs in
    let (there, h₂) = guard-eq-ok (has_table outputs final) _ _ h₁ in
    let (from, e₃, h₃) = >>=-eq-ok (ident final) _ h₂ in
    let (columns, e₄, h₄) = >>=-eq-ok (item final outputs) _ h₃ in
    let (grain, e₅, h₅) = >>=-eq-ok (item final grains) _ h₄ in
    let all_grained =
      stages-Grained schema known 1 vs [] [] (sqls, outputs, grains)
        (λ k cs g e₁ e₂. absurd (cc e₁)) kept e₁ in
    subst GrainOf (ok-injective h₅) (λ n m. In-sorted n columns (
      all_grained final columns grain (item-found final outputs columns e₄)
        (item-found final grains grain e₅) n m))

-- The stages of a plan, where it has a list of them.
abbrev pub stages_of : Value → List Value
stages_of (list vs) = to_list vs
stages_of _ = []

plan-GrainOf :
    (schema : Schema) (known : String → String → String) (plan : Fields) (v : Value)
    (c : CompiledPlan)
    → All Keeps (stages_of v)
    → compile_plan schema known plan v ≡ ok c
    → GrainOf c
unfolding compile_plan to_list
plan-GrainOf schema known plan (list (cons v vs)) c kept h =
    list-GrainOf schema known plan (v ∷ to_list vs) c kept h
plan-GrainOf schema known plan _ c kept h = absurd (cc h)

-- Where no stage of a plan asks to drop the columns of its input, the grain of the plan that it
-- compiles to is among the output columns.
pub compile-Within :
    (schema : Schema) (known : String → String → String) (plan : Fields) (c : CompiledPlan)
    → All Keeps (stages_of (get "stages" plan))
    → compile schema known plan ≡ ok c
    → Within c.grain c.output_columns
unfolding compile
compile-Within schema known plan c kept h =
    plan-GrainOf schema known plan (get "stages" plan) c kept h
