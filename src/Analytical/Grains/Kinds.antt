-- ===== src/Analytical/Grains/Kinds.antt =====
-- sqlagent/analytical.py: the grain of a stage, the columns that tell its rows apart, is among the
-- columns that the stage puts out, as long as no projection drops the columns of its input.
use po_c_sqlagent.Base.{
  String, Bool, true, false, not, ◌||◌, ◌≡◌, List, [], In, ok, some, >>=-eq-ok, guard-eq-ok,
  if-eq-ok, ok-injective, subst, if◌then◌else◌, ◌++◌ as append,
}
use po_c_sqlagent.Text.{◌=ₛ◌}
use po_c_sqlagent.Python.{Fields}
use po_c_sqlagent.Composer.{Schema, columns?, has_table, text_or, entries, sorted}
use po_c_sqlagent.Analytical.Terms.{ident}
use po_c_sqlagent.Analytical.Expressions.{compile_at}
use po_c_sqlagent.Analytical.Tables.{
  Stages, item, is_empty, to_set, subset, names_at, schema_columns,
}
use po_c_sqlagent.Analytical.Stages.{
  Compiled, idents, input, selected_columns, compile_scan, compile_filter, compile_join, join_grain,
  compile_aggregate, compile_measures,
}
use po_c_sqlagent.Analytical.JoinRun.{compile_join-JoinRun, left_of, cardinality_of}
use po_c_sqlagent.Analytical.Derived.{
  compile_union, first_input, later_inputs, same_columns, same_grains, union_parts, compile_project,
  compile_deriveds, keeps,
}
use po_c_sqlagent.Analytical.Scoped.Sets.{subset-In, to_set_iff, union_parts as union_In}
use po_c_sqlagent.Analytical.Scoped.Inputs.{item-found, input-found}
use po_c_sqlagent.Analytical.Scoped.Grouped.{measures_kept}
use po_c_sqlagent.Analytical.Scoped.Windowed.{deriveds_kept}

-- Every name of the first list is in the second.
abbrev pub Within : List String → List String → Type 0
Within grain columns = (n : String) → In n grain → In n columns

-- Every stage compiled so far has its grain among its columns.
abbrev pub Grained : Stages → Stages → Type 0
Grained outputs grains =
    (k : String) (columns grain : List String)
    → columns? k outputs ≡ some columns
    → columns? k grains ≡ some grain
    → Within grain columns

abbrev pub GrainKept : Compiled → Type 0
GrainKept (sql, columns, grain) = Within grain columns

pub scan-GrainKept :
    (schema : Schema) (fs : Fields) (c : Compiled) → compile_scan schema fs ≡ ok c → GrainKept c
unfolding compile_scan
scan-GrainKept schema fs c h =
    let t = text_or "table" "" fs in
    let (known, h₁) = guard-eq-ok (has_table schema t) _ _ h in
    let (selected, e₂, h₂) = >>=-eq-ok (selected_columns schema t fs) _ h₁ in
    let (inside, h₃) = guard-eq-ok (subset selected (schema_columns schema t)) _ _ h₂ in
    let (grain, e₄, h₄) = >>=-eq-ok (names_at "grain" fs) _ h₃ in
    let (covered, h₅) = guard-eq-ok (subset grain selected) _ _ h₄ in
    let (parts, e₆, h₆) = >>=-eq-ok (idents selected) _ h₅ in
    let (source, e₇, h₇) = >>=-eq-ok (ident t) _ h₆ in
    subst GrainKept (ok-injective h₇)
      (λ n m. (to_set_iff n selected).1 (subset-In grain selected n covered m))

pub filter-GrainKept :
    (outputs grains : Stages) (fs : Fields) (c : Compiled)
    → Grained outputs grains
    → compile_filter fs outputs grains ≡ ok c
    → GrainKept c
unfolding compile_filter
filter-GrainKept outputs grains fs c g h =
    let ((source, columns), e₁, h₁) = >>=-eq-ok (input fs outputs) _ h in
    let (predicate, e₂, h₂) = >>=-eq-ok (compile_at columns "where" fs) _ h₁ in
    let (from, e₃, h₃) = >>=-eq-ok (ident source) _ h₂ in
    let (grain, e₄, h₄) = >>=-eq-ok (item source grains) _ h₃ in
    subst GrainKept (ok-injective h₄) (
      g source columns grain (input-found fs outputs source columns e₁)
        (item-found source grains grain e₄))

join_grain-Within :
    (cardinality left : String) (outputs grains : Stages) (columns grain : List String)
    → Grained outputs grains
    → columns? left outputs ≡ some columns
    → join_grain cardinality left grains ≡ ok grain
    → Within grain columns
unfolding join_grain
join_grain-Within cardinality left outputs grains columns grain g found h =
    if-eq-ok (cardinality =ₛ "one_to_one" || cardinality =ₛ "many_to_one") _ _ grain
      (λ e. g left columns grain found (item-found left grains grain e))
      (λ e. subst (λ l. Within l columns) (ok-injective e) (λ n m. elim m [ ])) h

pub join-GrainKept :
    (known : String → String → String) (outputs grains : Stages) (fs : Fields) (c : Compiled)
    → Grained outputs grains
    → compile_join known fs outputs grains ≡ ok c
    → GrainKept c
join-GrainKept known outputs grains fs c g h =
    let r = compile_join-JoinRun known fs outputs grains c h in
    let found = item-found (left_of fs) outputs r.left_columns r.left_found in
    subst GrainKept r.result (λ n m. (union_In n r.left_columns r.right_columns).0 (
      join_grain-Within (cardinality_of known fs) (left_of fs) outputs grains r.left_columns r.grain
        g found r.grain_is n m))

pub aggregate-GrainKept :
    (outputs grains : Stages) (fs : Fields) (c : Compiled)
    → compile_aggregate fs outputs grains ≡ ok c
    → GrainKept c
unfolding compile_aggregate
aggregate-GrainKept outputs grains fs c h =
    let ((source, columns), e₁, h₁) = >>=-eq-ok (input fs outputs) _ h in
    let (group_by, e₂, h₂) = >>=-eq-ok (names_at "group_by" fs) _ h₁ in
    let (inside, h₃) = guard-eq-ok (subset group_by columns) _ _ h₂ in
    let (keys, e₄, h₄) = >>=-eq-ok (idents group_by) _ h₃ in
    let (wanted, e₅, h₅) = >>=-eq-ok (entries "measures" fs) _ h₄ in
    let ((parts, output), e₆, h₆) =
      >>=-eq-ok (compile_measures columns (to_set group_by) wanted) _ h₅ in
    let (some_part, h₇) = guard-eq-ok (not (is_empty (append keys parts))) _ _ h₆ in
    let (from, e₈, h₈) = >>=-eq-ok (ident source) _ h₇ in
    subst GrainKept (ok-injective h₈) (λ n m.
      measures_kept columns (to_set group_by) wanted parts output n e₆
        ((to_set_iff n group_by).1 m))

if-Within :
    (b : Bool) (grain columns : List String)
    → Within grain columns
    → Within (if b then grain else []) columns
if-Within true grain columns h = h
if-Within false grain columns h = λ n m. elim m [ ]

pub union-GrainKept :
    (outputs grains : Stages) (fs : Fields) (c : Compiled)
    → Grained outputs grains
    → compile_union fs outputs grains ≡ ok c
    → GrainKept c
unfolding compile_union
union-GrainKept outputs grains fs c g h =
    let (inputs, e₁, h₁) = >>=-eq-ok (names_at "inputs" fs) _ h in
    let (prior, h₂) = guard-eq-ok _ _ _ h₁ in
    let (head, e₃, h₃) = >>=-eq-ok (first_input inputs) _ h₂ in
    let (first, e₄, h₄) = >>=-eq-ok (item head outputs) _ h₃ in
    let (same, e₅, h₅) = >>=-eq-ok (same_columns first outputs (later_inputs inputs)) _ h₄ in
    let (identical, h₆) = guard-eq-ok same _ _ h₅ in
    let (parts, e₇, h₇) = >>=-eq-ok (union_parts (sorted first) inputs) _ h₆ in
    let (grain, e₈, h₈) = >>=-eq-ok (item head grains) _ h₇ in
    let (equal, e₉, h₉) = >>=-eq-ok (same_grains grain grains inputs) _ h₈ in
    subst GrainKept (ok-injective h₉) (
      if-Within equal grain first
        (g head first grain (item-found head outputs first e₄) (item-found head grains grain e₈)))

kept-In :
    (b : Bool) (n : String) (columns : List String)
    → b ≡ true
    → In n columns
    → In n (if b then columns else [])
kept-In true n columns h m = m
kept-In false n columns h m = absurd (cc h)

pub project-GrainKept :
    (outputs grains : Stages) (kind : String) (fs : Fields) (c : Compiled)
    → Grained outputs grains
    → keeps fs ≡ true
    → compile_project kind fs outputs grains ≡ ok c
    → GrainKept c
unfolding compile_project
project-GrainKept outputs grains kind fs c g kept h =
    let ((source, columns), e₁, h₁) = >>=-eq-ok (input fs outputs) _ h in
    let (expressions, e₂, h₂) = >>=-eq-ok (entries "expressions" fs) _ h₁ in
    let ((parts, output), e₃, h₃) =
      >>=-eq-ok (compile_deriveds columns kind (if keeps fs then columns else []) expressions) _
        h₂ in
    let (some_part, h₄) = guard-eq-ok _ _ _ h₃ in
    let (from, e₅, h₅) = >>=-eq-ok (ident source) _ h₄ in
    let (grain, e₆, h₆) = >>=-eq-ok (item source grains) _ h₅ in
    subst GrainKept (ok-injective h₆) (λ n m.
      deriveds_kept columns kind (if keeps fs then columns else []) expressions parts output n e₃ (
        kept-In (keeps fs) n columns kept (
          g source columns grain (input-found fs outputs source columns e₁)
            (item-found source grains grain e₆) n m)))
