-- ===== src/Analytical/Scoped/Sourced.antt =====
-- Where the output columns of a stage come from.
use po_c_sqlagent.Base.{
  ◌++◌, String, Bool, true, false, not, ◌&&◌, ◌||◌, ◌≡◌, refl, sym, ap, ◌⊎◌, inl, inr, List, [],
  ◌∷◌, In, all, ok, >>=-eq-ok, guard-eq-ok, if-eq-ok, ok-injective, subst, length, ltb,
  if◌then◌else◌,
}
use po_c_sqlagent.Text.{◌=ₛ◌, member, lower}
use po_c_sqlagent.Python.{Value, dict, Fields}
use po_c_sqlagent.Composer.{Schema, has_table, text_or, entries, sorted}
use po_c_sqlagent.Composer.Query.{ColumnOf}
use po_c_sqlagent.Analytical.Terms.{ident}
use po_c_sqlagent.Analytical.Tables.{
  Stages, item, to_set, include, subset, schema_columns, names_at, is_empty,
}
use po_c_sqlagent.Analytical.Stages.{
  Compiled, idents, input, selected_columns, argument_of, aggregates, compile_measure,
  compile_measures, compile_scan, compile_filter, compile_join, compile_aggregate,
}
use po_c_sqlagent.Analytical.JoinRun.{compile_join-JoinRun, left_of, right_of}
use po_c_sqlagent.Analytical.Expressions.{compile_at}
use po_c_sqlagent.Analytical.Derived.{
  compile_union, first_input, later_inputs, same_columns, same_grains, union_parts, derived_sql,
  compile_derived, compile_deriveds, keeps, compile_project, compile_stage,
}
use po_c_sqlagent.Analytical.Scoped.Sets.{
  include-In, union-In, to_set_iff, subset-In, schema_columns-ColumnOf,
}
use po_c_sqlagent.Analytical.Scoped.Inputs.{item-found, input-found}

-- One of the entries under a key has the alias.
abbrev pub Aliased : List Value → String → Type 0
Aliased vs n = (entry : Fields) × In (dict entry) vs × (text_or "alias" "" entry ≡ n)

-- A measure or an expression of the stage is given the name.
abbrev pub Declares : Fields → String → Type 0
Declares stage n =
    (key : String) × ((key ≡ "measures") ⊎ (key ≡ "expressions"))
    × ((vs : List Value) × (entries key stage ≡ ok vs) × Aliased vs n)

-- A column of a table of the schema, of a stage before, or one that the stage declares.
abbrev pub Sourced : Schema → Stages → Fields → String → Type 0
Sourced schema outputs stage n =
    ((t : String) × ColumnOf schema t n) ⊎ ((s : String) × ColumnOf outputs s n) ⊎ Declares stage n

abbrev pub AllSourced : Schema → Stages → Fields → Compiled → Type 0
AllSourced schema outputs stage (sql, columns, grain) =
    (n : String) → In n columns → Sourced schema outputs stage n

later-Aliased : (v : Value) (vs : List Value) (n : String) → Aliased vs n → Aliased (v ∷ vs) n
later-Aliased v vs n (entry, m, e) = (entry, inr m, e)

measure-Aliased :
    (columns : List String) (v : Value) (part alias : String)
    → compile_measure columns v ≡ ok (part, alias)
    → (entry : Fields) × (v ≡ dict entry) × (text_or "alias" "" entry ≡ alias)
unfolding compile_measure
measure-Aliased columns (dict fs) part alias h =
    let agg = lower (text_or "agg" "" fs) in
    let name = text_or "alias" "" fs in
    let column = text_or "column" "*" fs in
    let (allowed, h₁) = guard-eq-ok (member agg aggregates && not (name =ₛ "")) _ _ h in
    let (known, h₂) = guard-eq-ok (column =ₛ "*" || member column columns) _ _ h₁ in
    let (argument, e₃, h₃) = >>=-eq-ok (argument_of column) _ h₂ in
    let (sql, e₄, h₄) = >>=-eq-ok (ident name) _ h₃ in
    (fs, refl, ap (λ (p : String × String). p.1) (ok-injective h₄))
measure-Aliased columns _ part alias h = absurd (cc h)

derived-Aliased :
    (columns : List String) (kind : String) (v : Value) (part alias : String)
    → compile_derived columns kind v ≡ ok (part, alias)
    → (entry : Fields) × (v ≡ dict entry) × (text_or "alias" "" entry ≡ alias)
unfolding compile_derived
derived-Aliased columns kind (dict fs) part alias h =
    let name = text_or "alias" "" fs in
    let (named, h₁) = guard-eq-ok (not (name =ₛ "")) _ _ h in
    let (compiled, e₂, h₂) = >>=-eq-ok (derived_sql columns kind fs) _ h₁ in
    let (sql, e₃, h₃) = >>=-eq-ok (ident name) _ h₂ in
    (fs, refl, ap (λ (p : String × String). p.1) (ok-injective h₃))
derived-Aliased columns kind _ part alias h = absurd (cc h)

-- A name of the set with one more alias.
included :
    (v : Value) (vs : List Value) (alias y : String) (output : List String)
    → ((entry : Fields) × (v ≡ dict entry) × (text_or "alias" "" entry ≡ alias))
    → In y (include alias output) ⊎ Aliased vs y
    → In y output ⊎ Aliased (v ∷ vs) y
included v vs alias y output (entry, is, e) (inr later) = inr (later-Aliased v vs y later)
included v vs alias y output (entry, is, e) (inl m) = elim (include-In alias y output m) [
  | inl old ↦ inl old
  | inr same ↦ inr (entry, inl is, subst (λ n. text_or "alias" "" entry ≡ n) same e)
]

measures-In :
    (columns output : List String) (vs : List Value) (parts out : List String) (y : String)
    → compile_measures columns output vs ≡ ok (parts, out)
    → In y out
    → In y output ⊎ Aliased vs y
unfolding compile_measures
measures-In columns output [] parts out y h m =
    inl (subst (In y) (sym (ap (λ (p : List String × List String). p.1) (ok-injective h))) m)
measures-In columns output (v ∷ vs) parts out y h m =
    let ((part, alias), e₁, h₁) = >>=-eq-ok (compile_measure columns v) _ h in
    let ((more, last), e₂, h₂) =
      >>=-eq-ok (compile_measures columns (include alias output) vs) _ h₁ in
    included v vs alias y output (measure-Aliased columns v part alias e₁) (
      measures-In columns (include alias output) vs more last y e₂
        (subst (In y) (sym (ap (λ (p : List String × List String). p.1) (ok-injective h₂))) m))

deriveds-In :
    (columns : List String) (kind : String) (output : List String) (vs : List Value)
    (parts out : List String) (y : String)
    → compile_deriveds columns kind output vs ≡ ok (parts, out)
    → In y out
    → In y output ⊎ Aliased vs y
unfolding compile_deriveds
deriveds-In columns kind output [] parts out y h m =
    inl (subst (In y) (sym (ap (λ (p : List String × List String). p.1) (ok-injective h))) m)
deriveds-In columns kind output (v ∷ vs) parts out y h m =
    let ((part, alias), e₁, h₁) = >>=-eq-ok (compile_derived columns kind v) _ h in
    let ((more, last), e₂, h₂) =
      >>=-eq-ok (compile_deriveds columns kind (include alias output) vs) _ h₁ in
    included v vs alias y output (derived-Aliased columns kind v part alias e₁) (
      deriveds-In columns kind (include alias output) vs more last y e₂
        (subst (In y) (sym (ap (λ (p : List String × List String). p.1) (ok-injective h₂))) m))

module _ (schema : Schema) (outputs : Stages) (fs : Fields) where
  scan-AllSourced : (c : Compiled) → compile_scan schema fs ≡ ok c → AllSourced schema outputs fs c
  unfolding compile_scan
  scan-AllSourced c h =
      let t = text_or "table" "" fs in
      let (known, h₁) = guard-eq-ok (has_table schema t) _ _ h in
      let (selected, e₂, h₂) = >>=-eq-ok (selected_columns schema t fs) _ h₁ in
      let (inside, h₃) = guard-eq-ok (subset selected (schema_columns schema t)) _ _ h₂ in
      let (grain, e₄, h₄) = >>=-eq-ok (names_at "grain" fs) _ h₃ in
      let (covered, h₅) = guard-eq-ok (subset grain selected) _ _ h₄ in
      let (parts, e₆, h₆) = >>=-eq-ok (idents selected) _ h₅ in
      let (source, e₇, h₇) = >>=-eq-ok (ident t) _ h₆ in
      subst (AllSourced schema outputs fs) (ok-injective h₇) λ n m. inl (
        t,
        schema_columns-ColumnOf schema t n
            (subset-In selected (schema_columns schema t) n inside ((to_set_iff n selected).0 m)),
      )

  filter-AllSourced :
      (grains : Stages) (c : Compiled)
      → compile_filter fs outputs grains ≡ ok c
      → AllSourced schema outputs fs c
  unfolding compile_filter
  filter-AllSourced grains c h =
      let ((source, columns), e₁, h₁) = >>=-eq-ok (input fs outputs) _ h in
      let (predicate, e₂, h₂) = >>=-eq-ok (compile_at columns "where" fs) _ h₁ in
      let (from, e₃, h₃) = >>=-eq-ok (ident source) _ h₂ in
      let (grain, e₄, h₄) = >>=-eq-ok (item source grains) _ h₃ in
      subst (AllSourced schema outputs fs) (ok-injective h₄)
        λ n m. inr (inl (source, (columns, input-found fs outputs source columns e₁, m)))

  join-AllSourced :
      (known : String → String → String) (grains : Stages) (c : Compiled)
      → compile_join known fs outputs grains ≡ ok c
      → AllSourced schema outputs fs c
  join-AllSourced known grains c h =
      let r = compile_join-JoinRun known fs outputs grains c h in
      let lf = item-found (left_of fs) outputs r.left_columns r.left_found in
      let rf = item-found (right_of fs) outputs r.right_columns r.right_found in
      subst (AllSourced schema outputs fs) r.result λ n m.
        elim (union-In n r.left_columns r.right_columns m) [
          | inl l ↦ inr (inl (left_of fs, (r.left_columns, lf, l)))
          | inr k ↦ inr (inl (right_of fs, (r.right_columns, rf, k)))
        ]

  aggregate-AllSourced :
      (grains : Stages) (c : Compiled)
      → compile_aggregate fs outputs grains ≡ ok c
      → AllSourced schema outputs fs c
  unfolding compile_aggregate
  aggregate-AllSourced grains c h =
      let ((source, columns), e₁, h₁) = >>=-eq-ok (input fs outputs) _ h in
      let (group_by, e₂, h₂) = >>=-eq-ok (names_at "group_by" fs) _ h₁ in
      let (inside, h₃) = guard-eq-ok (subset group_by columns) _ _ h₂ in
      let (keys, e₄, h₄) = >>=-eq-ok (idents group_by) _ h₃ in
      let (wanted, e₅, h₅) = >>=-eq-ok (entries "measures" fs) _ h₄ in
      let ((parts, output), e₆, h₆) =
        >>=-eq-ok (compile_measures columns (to_set group_by) wanted) _ h₅ in
      let (some_part, h₇) = guard-eq-ok (not (is_empty (keys ++ parts))) _ _ h₆ in
      let (from, e₈, h₈) = >>=-eq-ok (ident source) _ h₇ in
      subst (AllSourced schema outputs fs) (ok-injective h₈) λ n m.
        elim (measures-In columns (to_set group_by) wanted parts output n e₆ m) [
          | inl key ↦ inr (
              inl (
                source,
                (
                  columns,
                  input-found fs outputs source columns e₁,
                  subset-In group_by columns n inside ((to_set_iff n group_by).0 key),
                ),
              ))
          | inr named ↦ inr (inr ("measures", inl refl, (wanted, e₅, named)))
        ]

  union-AllSourced :
      (grains : Stages) (c : Compiled)
      → compile_union fs outputs grains ≡ ok c
      → AllSourced schema outputs fs c
  unfolding compile_union
  union-AllSourced grains c h =
      let (inputs, e₁, h₁) = >>=-eq-ok (names_at "inputs" fs) _ h in
      let (prior, h₂) =
        guard-eq-ok (not (ltb (length inputs) 2) && all (has_table outputs) inputs) _ _ h₁ in
      let (head, e₃, h₃) = >>=-eq-ok (first_input inputs) _ h₂ in
      let (first, e₄, h₄) = >>=-eq-ok (item head outputs) _ h₃ in
      let (same, e₅, h₅) = >>=-eq-ok (same_columns first outputs (later_inputs inputs)) _ h₄ in
      let (identical, h₆) = guard-eq-ok same _ _ h₅ in
      let (parts, e₇, h₇) = >>=-eq-ok (union_parts (sorted first) inputs) _ h₆ in
      let (grain, e₈, h₈) = >>=-eq-ok (item head grains) _ h₇ in
      let (equal, e₉, h₉) = >>=-eq-ok (same_grains grain grains inputs) _ h₈ in
      subst (AllSourced schema outputs fs) (ok-injective h₉)
        λ n m. inr (inl (head, (first, item-found head outputs first e₄, m)))

  kept_column :
      (keep : Bool) (columns : List String) (n : String)
      → In n (if keep then columns else [])
      → In n columns
  kept_column true columns n m = m
  kept_column false columns n m = elim m [ ]

  project-AllSourced :
      (kind : String) (grains : Stages) (c : Compiled)
      → compile_project kind fs outputs grains ≡ ok c
      → AllSourced schema outputs fs c
  unfolding compile_project
  project-AllSourced kind grains c h =
      let ((source, columns), e₁, h₁) = >>=-eq-ok (input fs outputs) _ h in
      let (expressions, e₂, h₂) = >>=-eq-ok (entries "expressions" fs) _ h₁ in
      let start = if keeps fs then columns else [] in
      let ((parts, output), e₃, h₃) =
        >>=-eq-ok (compile_deriveds columns kind start expressions) _ h₂ in
      let selected = if keeps fs then "*" ∷ parts else parts in
      let (some_part, h₄) = guard-eq-ok (not (is_empty selected)) _ _ h₃ in
      let (from, e₅, h₅) = >>=-eq-ok (ident source) _ h₄ in
      let (grain, e₆, h₆) = >>=-eq-ok (item source grains) _ h₅ in
      subst (AllSourced schema outputs fs) (ok-injective h₆) λ n m.
        elim (deriveds-In columns kind start expressions parts output n e₃ m) [
          | inl old ↦ inr (
              inl (
                source,
                (
                  columns,
                  input-found fs outputs source columns e₁,
                  kept_column (keeps fs) columns n old,
                ),
              ))
          | inr named ↦ inr (inr ("expressions", inr refl, (expressions, e₂, named)))
        ]

  pub stage-AllSourced :
      (known : String → String → String) (kind : String) (grains : Stages) (c : Compiled)
      → compile_stage schema known kind fs outputs grains ≡ ok c
      → AllSourced schema outputs fs c
  unfolding compile_stage
  stage-AllSourced known kind grains c h =
      if-eq-ok (kind =ₛ "scan") _ _ c (scan-AllSourced c)
        (if-eq-ok (kind =ₛ "filter") _ _ c (filter-AllSourced grains c) (
          if-eq-ok (kind =ₛ "join") _ _ c (join-AllSourced known grains c) (
            if-eq-ok (kind =ₛ "aggregate") _ _ c (aggregate-AllSourced grains c) (
              if-eq-ok (kind =ₛ "union_all") _ _ c (union-AllSourced grains c)
                (project-AllSourced kind grains c)))))
        h
