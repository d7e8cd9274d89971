-- ===== src/Analytical/Scoped/Grouped.antt =====
-- Aggregates.
use po_c_sqlagent.Base.{
  String, true, not, ◌&&◌, ◌||◌, ◌≡◌, refl, inl, inr, List, [], ◌∷◌, ◌++◌ as append, All, In, all,
  ok, some, >>=-eq-ok, guard-eq-ok, ok-injective, subst, arith, Bool-cases,
}
use po_c_sqlagent.Text.{◌=ₛ◌, member, lower, upper}
use po_c_sqlagent.Text.Laws.{member→In}
use po_c_sqlagent.Python.{Value, dict, Fields}
use po_c_sqlagent.Composer.{Schema, columns?, entries, text_or}
use po_c_sqlagent.Analytical.Terms.{ident}
use po_c_sqlagent.Analytical.Tables.{Stages, include, is_empty, subset, to_set, names_at}
use po_c_sqlagent.Analytical.Stages.{
  Compiled, idents, input, select_from, argument_of, aggregate_sql, aggregates, named,
  compile_measure, compile_measures, group_clause, compile_aggregate,
}
use po_c_sqlagent.Analytical.Lexer.{
  is_plain, Piece, Piece-append, Piece-plain, All-append, upper-word-is_plain,
}
use po_c_sqlagent.Analytical.Names.{Piece-cons, join-Piece}
use po_c_sqlagent.Analytical.Scoped.Defs.{stage, stage_column, derived, Name, ScopedSql}
use po_c_sqlagent.Analytical.Scoped.Sets.{subset-In, include_self, include_kept}
use po_c_sqlagent.Analytical.Scoped.Inputs.{input-found, ident-Piece, idents-Pieces}
use po_c_sqlagent.Analytical.Scoped.Shaped.{select-Piece, &&-parts}

pub named-Piece :
    {P : String → Type 0} (expression alias : String)
    → Piece P expression
    → Piece P alias
    → Piece P (named expression alias)
unfolding named is_plain
named-Piece expression alias h k = Piece-append expression _ h (Piece-cons " AS " _ refl k)

aggregate-Piece :
    {P : String → Type 0} (agg argument : String)
    → member agg aggregates ≡ true
    → Piece P argument
    → Piece P (aggregate_sql agg argument)
unfolding aggregate_sql is_plain all
aggregate-Piece agg argument h k =
    let closed = Piece-append argument ")" k (Piece-plain ")" refl) in
    elim (Bool-cases (agg =ₛ "count_distinct")) [
      | inl e ↦ rw e (Piece-cons "COUNT(DISTINCT " _ refl closed)
      | inr n ↦ rw n (
          Piece-cons (upper agg) _ (upper-word-is_plain agg aggregates refl h)
            (Piece-cons "(" _ refl closed))
    ]

argument-Piece :
    (schema : Schema) (outputs : Stages) (out columns : List String) (source column sql : String)
    → columns? source outputs ≡ some columns
    → (column =ₛ "*" || member column columns) ≡ true
    → argument_of column ≡ ok sql
    → Piece (Name schema outputs out) sql
unfolding argument_of is_plain
argument-Piece schema outputs out columns source column sql found known e =
    elim (Bool-cases (column =ₛ "*")) [
      | inl star ↦
          subst (Piece (Name schema outputs out)) (ok-injective (rw star at e))
            (Piece-plain "*" refl)
      | inr plain ↦
          ident-Piece schema outputs out column sql
            (stage_column source (columns, found, member→In column columns (ground arith)))
            (rw plain at e)
    ]

-- Whatever the set of output columns is later, the alias stands in it.
abbrev pub Part : Schema → Stages → List String → String × String → Type 0
Part schema outputs out (part, alias) = In alias out → Piece (Name schema outputs out) part

measure-Part :
    (schema : Schema) (outputs : Stages) (out columns : List String) (source : String) (v : Value)
    (p : String × String)
    → columns? source outputs ≡ some columns
    → compile_measure columns v ≡ ok p
    → Part schema outputs out p
unfolding compile_measure
measure-Part schema outputs out columns source (dict fs) p found h =
    let agg = lower (text_or "agg" "" fs) in
    let alias = text_or "alias" "" fs in
    let column = text_or "column" "*" fs in
    let (allowed, h₁) = guard-eq-ok (member agg aggregates && not (alias =ₛ "")) _ _ h in
    let (known, h₂) = guard-eq-ok (column =ₛ "*" || member column columns) _ _ h₁ in
    let (argument, e₃, h₃) = >>=-eq-ok (argument_of column) _ h₂ in
    let (name, e₄, h₄) = >>=-eq-ok (ident alias) _ h₃ in
    subst (Part schema outputs out) (ok-injective h₄) (λ (m : In alias out).
      named-Piece (aggregate_sql agg argument) name
        (aggregate-Piece agg argument (&&-parts _ _ allowed).0
          (argument-Piece schema outputs out columns source column argument found known e₃))
        (ident-Piece schema outputs out alias name (derived m) e₄))
measure-Part schema outputs out columns source _ p found h = absurd (cc h)

pub measures_kept :
    (columns output : List String) (vs : List Value) (parts out : List String) (y : String)
    → compile_measures columns output vs ≡ ok (parts, out)
    → In y output
    → In y out
unfolding compile_measures
measures_kept columns output [] parts out y h m =
    subst (λ (p : List String × List String). In y p.1) (ok-injective h) m
measures_kept columns output (v ∷ vs) parts out y h m =
    let ((part, alias), e₁, h₁) = >>=-eq-ok (compile_measure columns v) _ h in
    let ((more, last), e₂, h₂) =
      >>=-eq-ok (compile_measures columns (include alias output) vs) _ h₁ in
    subst (λ (p : List String × List String). In y p.1) (ok-injective h₂)
      (measures_kept columns (include alias output) vs more last y e₂
        (include_kept alias y output m))

pub measures-Pieces :
    (schema : Schema) (outputs : Stages) (columns : List String) (source : String)
    (output : List String) (vs : List Value) (parts out : List String)
    → columns? source outputs ≡ some columns
    → compile_measures columns output vs ≡ ok (parts, out)
    → All (Piece (Name schema outputs out)) parts
unfolding compile_measures
measures-Pieces schema outputs columns source output [] parts out found h =
    subst (λ (p : List String × List String). All (Piece (Name schema outputs p.1)) p.0)
      (ok-injective h) tt
measures-Pieces schema outputs columns source output (v ∷ vs) parts out found h =
    let ((part, alias), e₁, h₁) = >>=-eq-ok (compile_measure columns v) _ h in
    let ((more, last), e₂, h₂) =
      >>=-eq-ok (compile_measures columns (include alias output) vs) _ h₁ in
    let kept =
      measures_kept columns (include alias output) vs more last alias e₂
        (include_self alias output) in
    subst (λ (p : List String × List String). All (Piece (Name schema outputs p.1)) p.0)
      {x = (part ∷ more, last)} (ok-injective h₂)
      (
        measure-Part schema outputs last columns source v (part, alias) found e₁ kept,
        measures-Pieces schema outputs columns source (include alias output) vs more last found e₂,
      )

group-Piece :
    {P : String → Type 0} (keys : List String) → All (Piece P) keys → Piece P (group_clause keys)
unfolding group_clause is_plain
group-Piece [] h = Piece-plain "" refl
group-Piece (x ∷ xs) h = Piece-cons " GROUP BY " _ refl (join-Piece ", " (x ∷ xs) refl h)

pub aggregate-ScopedSql :
    (schema : Schema) (outputs grains : Stages) (fs : Fields) (c : Compiled)
    → compile_aggregate fs outputs grains ≡ ok c
    → ScopedSql schema outputs c
unfolding compile_aggregate
aggregate-ScopedSql schema outputs grains fs c h =
    let ((source, columns), e₁, h₁) = >>=-eq-ok (input fs outputs) _ h in
    let found = input-found fs outputs source columns e₁ in
    let (group_by, e₂, h₂) = >>=-eq-ok (names_at "group_by" fs) _ h₁ in
    let (inside, h₃) = guard-eq-ok (subset group_by columns) _ _ h₂ in
    let (keys, e₄, h₄) = >>=-eq-ok (idents group_by) _ h₃ in
    let (wanted, e₅, h₅) = >>=-eq-ok (entries "measures" fs) _ h₄ in
    let ((parts, output), e₆, h₆) =
      >>=-eq-ok (compile_measures columns (to_set group_by) wanted) _ h₅ in
    let (some_part, h₇) = guard-eq-ok (not (is_empty (append keys parts))) _ _ h₆ in
    let (from, e₈, h₈) = >>=-eq-ok (ident source) _ h₇ in
    let key_pieces =
      idents-Pieces schema outputs output group_by keys
        (λ n m. stage_column source (columns, found, subset-In group_by columns n inside m)) e₄ in
    subst (ScopedSql schema outputs) (ok-injective h₈) (
      Piece-append (select_from (append keys parts) from) (group_clause keys)
        (select-Piece (append keys parts) from
          (All-append _ keys parts key_pieces (
            measures-Pieces schema outputs columns source (to_set group_by) wanted parts output
              found e₆))
          (ident-Piece schema outputs output source from (stage (columns, found)) e₈))
        (group-Piece keys key_pieces))
