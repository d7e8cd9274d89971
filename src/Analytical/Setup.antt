-- ===== src/Analytical/Setup.antt =====
-- sqlagent/analytical.py, compile_scratch, with sqlagent/scratch.py: how many queries a scratch plan
-- sets up.
use po_c_sqlagent.Base.{
  ℕ, zero, suc, ◌+◌, ◌≤◌, ◌<◌, String, not, ◌≡◌, refl, List, [], ◌∷◌, ◌++◌ as append, length, take,
  length-append, Option, none, some, ok, >>=-eq-ok, guard-eq-ok, ok-injective, subst, arith, ltb,
}
use po_c_sqlagent.Python.{Value, dict, list, Fields, get, either, show, str, to_list}
use po_c_sqlagent.Composer.{Schema}
use po_c_sqlagent.Analytical.Tables.{Stages, assign}
use po_c_sqlagent.Analytical.Plan.{checked_stage}
use po_c_sqlagent.Analytical.Scratch.{
  rewrite_references, scratch_stages, last_name, index_of, query_at, output_at, scratch_output,
  scratch_list, scratch_plan, compile_scratch,
}
use po_c_sqlagent.Analytical.Grains.Plan.{stages_of}

abbrev Grew : ℕ → List String → List String → List String × List String → Type 0
Grew n ids queries (ids', queries') =
    (length ids' ≡ length ids + n) × (length queries' ≡ length queries + n)

stages-Grew :
    (schema : Schema) (known : String → String → String) (vs : List Value)
    (ids queries : List String) (outputs grains : Stages) (r : List String × List String)
    → scratch_stages schema known vs ids queries outputs grains ≡ ok r
    → Grew (length vs) ids queries r
unfolding scratch_stages
stages-Grew schema known [] ids queries outputs grains r h =
    subst (Grew 0 ids queries) (ok-injective h) (omega arith, omega arith)
stages-Grew schema known (dict stage ∷ vs) ids queries outputs grains r h =
    let ((id, (sql, columns, grain)), e₁, h₁) =
      >>=-eq-ok (checked_stage schema known (length ids + 1) stage outputs grains) _ h in
    let query = rewrite_references 1 ids sql in
    let (more_ids, more_queries) =
      stages-Grew schema known vs (append ids (id ∷ [])) (append queries (query ∷ []))
        (assign id columns outputs) (assign id grain grains) r h₁ in
    (
      omega (arith, more_ids, length-append ids (id ∷ [])),
      omega (arith, more_queries, length-append queries (query ∷ [])),
    )
stages-Grew schema known _ ids queries outputs grains r h = absurd (cc h)

query_at-lt : (n : ℕ) (qs : List String) (q : String) → query_at n qs ≡ ok q → n < length qs
unfolding query_at
query_at-lt n [] q h = absurd (cc h)
query_at-lt zero (x ∷ qs) q h = omega arith
query_at-lt (suc n) (x ∷ qs) q h = omega (arith, query_at-lt n qs q h)

length-take_le : (n : ℕ) (xs : List String) → n ≤ length xs → length (take n xs) ≡ n
length-take_le zero xs h = refl
length-take_le (suc n) [] h = absurd (omega arith)
length-take_le (suc n) (x ∷ xs) h = omega (arith, length-take_le n xs (omega arith))

-- At least one query is set up, and fewer than there are.
abbrev pub Setup : ℕ → List String × String → Type 0
Setup n (setup, final) = (0 < length setup) × (length setup < n)

output-Setup :
    (final : String) (queries : List String) (index : Option ℕ) (r : List String × String)
    → output_at final queries index ≡ ok r
    → Setup (length queries) r
unfolding output_at
output-Setup final queries none r h = absurd (cc h)
output-Setup final queries (some zero) r h = absurd (cc h)
output-Setup final queries (some (suc i)) r h =
    let (q, e, h₁) = >>=-eq-ok (query_at (suc i) queries) _ h in
    let below = query_at-lt (suc i) queries q e in
    let counted = length-take_le (suc i) queries (omega (arith, below)) in
    subst (Setup (length queries)) (ok-injective h₁)
      (omega (arith, counted), omega (arith, counted, below))

list-Setup :
    (schema : Schema) (known : String → String → String) (plan : Fields) (vs : List Value)
    (r : List String × String)
    → scratch_list schema known plan vs ≡ ok r
    → Setup (length vs) r
unfolding scratch_list scratch_output
list-Setup schema known plan vs r h =
    let ((ids, queries), e, h₁) = >>=-eq-ok (scratch_stages schema known vs [] [] [] []) _ h in
    let (counted_ids, counted) = stages-Grew schema known vs [] [] [] [] (ids, queries) e in
    subst (λ n. Setup n r) (omega (arith, counted))
      (output-Setup (show (either (get "output" plan) (str (last_name ids)))) queries
        (index_of (show (either (get "output" plan) (str (last_name ids)))) ids) r h₁)

plan-Setup :
    (schema : Schema) (known : String → String → String) (plan : Fields) (v : Value)
    (r : List String × String)
    → scratch_plan schema known plan v ≡ ok r
    → Setup (length (stages_of v)) r
unfolding scratch_plan
plan-Setup schema known plan (list vs) r h =
    let (two, h₁) = guard-eq-ok (not (ltb (length (to_list vs)) 2)) _ _ h in
    list-Setup schema known plan (to_list vs) r h₁
plan-Setup schema known plan _ r h = absurd (cc h)

-- A plan that compiles to scratch queries sets up at least one table, and fewer than it has stages.
pub compile_scratch-Setup :
    (schema : Schema) (known : String → String → String) (plan : Fields) (setup : List String)
    (final : String)
    → compile_scratch schema known plan ≡ ok (setup, final)
    → (0 < length setup) × (length setup < length (stages_of (get "stages" plan)))
unfolding compile_scratch
compile_scratch-Setup schema known plan setup final h =
    plan-Setup schema known plan (get "stages" plan) (setup, final) h
