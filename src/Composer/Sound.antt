-- ===== src/Composer/Sound.antt =====
-- Each loop of assemble_spec yields parts that keep to the schema.
use text.Mathlib.TextEquality.{eq_iff}
use po_c_sqlagent.Base.{
  String, true, ◌≡◌, refl, inl, inr, List, [], ◌∷◌, map, All, In, ok, >>=-eq-ok, guard-eq-ok,
  ok-injective, subst, arith, length, ap, sym, suc, not-eq-true, Option-cases, Bool-cases,
}
use po_c_sqlagent.Text.{◌=ₛ◌, lower, strip, is_space}
use po_c_sqlagent.Text.Laws.{member→In, not-member→not-In}
use po_c_sqlagent.Python.{Value, dict, get}
use po_c_sqlagent.Composer.Check.{
  Schema, columns?, has_table, has_column, check_table, check_column,
}
use po_c_sqlagent.Composer.Parts.{
  assemble_dim, assemble_dims, assemble_measure, assemble_measures, assemble_filter,
  assemble_filters, aggregations, filter_ops, text_or, measure_alias,
}
use po_c_sqlagent.Composer.Query.{
  TableOf, ColumnOf, ColumnOrStar, DimOf, MeasurePart, MeasureOf, measure_sql, FreshFrom,
  FilterPart, FilterOf, filter_sql,
}

pub has_table→TableOf :
    (schema : Schema) (t : String) → has_table schema t ≡ true → TableOf schema t
unfolding has_table
has_table→TableOf schema t h = elim (Option-cases (columns? t schema)) [
  | inl e ↦ absurd (cc (e, h))
  | inr found ↦ found
]

pub has_column→ColumnOf :
    (schema : Schema) (t c : String) → has_column schema t c ≡ true → ColumnOf schema t c
unfolding has_column
has_column→ColumnOf schema t c h = elim (Option-cases (columns? t schema)) [
  | inl e ↦ absurd (ground (arith, e, h))
  | inr (cols, e) ↦ (cols, e, member→In c cols (ground (arith, e, h)))
]

pub check_table→TableOf :
    (schema : Schema) (t : String) {u : Unit} → check_table schema t ≡ ok u → TableOf schema t
unfolding check_table
check_table→TableOf schema t h = has_table→TableOf schema t (ground arith)

pub check_column→ColumnOrStar :
    (schema : Schema) (t c : String) {u : Unit}
    → check_column schema t c ≡ ok u
    → ColumnOrStar schema t c
unfolding check_column
check_column→ColumnOrStar schema t c h = elim (Bool-cases (c =ₛ "*")) [
  | inl star ↦ inl ((eq_iff _ _).0 star)
  | inr plain ↦ inr (has_column→ColumnOf schema t c (ground arith))
]

-- Dimensions.
dim-DimOf :
    (schema : Schema) (known : List String) (base : String) (v : Value) (d : String × String)
    → assemble_dim schema known base v ≡ ok d
    → DimOf schema known d
unfolding assemble_dim
dim-DimOf schema known base (dict entry) d h =
    let (joined, h₁) = guard-eq-ok _ _ _ h in
    let (u, checked, h₂) = >>=-eq-ok _ _ h₁ in
    subst (DimOf schema known) (ok-injective h₂)
      (member→In _ known joined, check_column→ColumnOrStar schema _ _ checked)
dim-DimOf schema known base _ d h = cc

pub dims-All :
    (schema : Schema) (known : List String) (base : String) (vs : List Value)
    (ds : List (String × String))
    → assemble_dims schema known base vs ≡ ok ds
    → All (DimOf schema known) ds
unfolding assemble_dims
dims-All schema known base [] ds h = subst (All (DimOf schema known)) (ok-injective h) tt
dims-All schema known base (v ∷ vs) ds h =
    let (d, one, h₁) = >>=-eq-ok _ _ h in
    let (rest, more, h₂) = >>=-eq-ok _ _ h₁ in
    subst (All (DimOf schema known)) {x = d ∷ rest} (ok-injective h₂)
      (dim-DimOf schema known base v d one, dims-All schema known base vs rest more)

-- Measures.
abbrev MeasureFrom : Schema → List String → List String → String × String → Type 0
MeasureFrom schema known aliases p =
    (m : MeasurePart) × (measure_sql m ≡ p) × MeasureOf schema known m × (¬ In m.alias aliases)

measure-MeasureFrom :
    (schema : Schema) (known : List String) (base : String) (aliases : List String) (v : Value)
    (p : String × String)
    → assemble_measure schema known base aliases v ≡ ok p
    → MeasureFrom schema known aliases p
unfolding assemble_measure
measure-MeasureFrom schema known base aliases (dict entry) p h =
    let agg = lower (text_or "agg" "count" entry) in
    let column = text_or "column" "*" entry in
    let table = text_or "table" base entry in
    let m : MeasurePart = record {
      agg = agg;
      table = table;
      column = column;
      alias = measure_alias entry agg column;
    } in
    let (agg_known, h₁) = guard-eq-ok _ _ _ h in
    let (joined, h₂) = guard-eq-ok _ _ _ h₁ in
    let (u, checked, h₃) = >>=-eq-ok _ _ h₂ in
    let (fresh, h₄) = guard-eq-ok _ _ _ h₃ in
    (
      m,
      ok-injective h₄,
      (
        member→In agg aggregations agg_known,
        member→In table known joined,
        check_column→ColumnOrStar schema table column checked,
      ),
      not-member→not-In m.alias aliases (not-eq-true _ fresh),
    )
measure-MeasureFrom schema known base aliases _ p h = absurd (cc h)

abbrev MeasuresFrom :
    Schema → List String → List String → List Value → List (String × String) → Type 0
MeasuresFrom schema known aliases vs ps =
    (ms : List MeasurePart) × (map measure_sql ms ≡ ps)
    × All (MeasureOf schema known) ms
    × FreshFrom aliases ms
    × (length ms ≡ length vs)

pub measures-MeasuresFrom :
    (schema : Schema) (known : List String) (base : String) (aliases : List String)
    (vs : List Value) (ps : List (String × String))
    → assemble_measures schema known base aliases vs ≡ ok ps
    → MeasuresFrom schema known aliases vs ps
unfolding assemble_measures
measures-MeasuresFrom schema known base aliases [] ps h = ([], ok-injective h, tt, tt, refl)
measures-MeasuresFrom schema known base aliases (v ∷ vs) ps h =
    let (p, one, h₁) = >>=-eq-ok _ _ h in
    let (rest, more, h₂) = >>=-eq-ok _ _ h₁ in
    let (m, shown, sound, fresh) = measure-MeasureFrom schema known base aliases v p one in
    let (ms, all_shown, all_sound, all_fresh, counted) =
      measures-MeasuresFrom schema known base (p.1 ∷ aliases) vs rest more in
    let alias : p.1 ≡ m.alias = sym (ap (λ (q : String × String). q.1) shown) in
    (
      m ∷ ms,
      cc,
      (sound, all_sound),
      (fresh, subst (λ a. FreshFrom (a ∷ aliases) ms) alias all_fresh),
      ap suc counted,
    )

-- Filters.
abbrev FilterFrom : Schema → List String → String → Type 0
FilterFrom schema known part = (f : FilterPart) × (filter_sql f ≡ part) × FilterOf schema known f

filter-FilterFrom :
    (schema : Schema) (known : List String) (base : String) (v : Value) (part : String)
    → assemble_filter schema known base v ≡ ok part
    → FilterFrom schema known part
unfolding assemble_filter
filter-FilterFrom schema known base (dict entry) part h =
    let table = text_or "table" base entry in
    let column = text_or "column" "" entry in
    let op = strip is_space (text_or "op" "=" entry) in
    let (joined, h₁) = guard-eq-ok _ _ _ h in
    let (u, checked, h₂) = >>=-eq-ok _ _ h₁ in
    let (allowed, h₃) = guard-eq-ok _ _ _ h₂ in
    (
      record { table = table; column = column; op = op; value = get "value" entry },
      ok-injective h₃,
      (
        member→In op filter_ops allowed,
        member→In table known joined,
        check_column→ColumnOrStar schema table column checked,
      ),
    )
filter-FilterFrom schema known base _ part h = absurd (cc h)

pub filters-FilterFrom :
    (schema : Schema) (known : List String) (base : String) (vs : List Value) (parts : List String)
    → assemble_filters schema known base vs ≡ ok parts
    → (fs : List FilterPart) × (map filter_sql fs ≡ parts) × All (FilterOf schema known) fs
unfolding assemble_filters
filters-FilterFrom schema known base [] parts h = ([], ok-injective h, tt)
filters-FilterFrom schema known base (v ∷ vs) parts h =
    let (part, one, h₁) = >>=-eq-ok _ _ h in
    let (rest, more, h₂) = >>=-eq-ok _ _ h₁ in
    let (f, shown, sound) = filter-FilterFrom schema known base v part one in
    let (fs, all_shown, all_sound) = filters-FilterFrom schema known base vs rest more in
    (f ∷ fs, cc, (sound, all_sound))
