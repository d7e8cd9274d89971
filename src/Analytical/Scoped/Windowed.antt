-- ===== src/Analytical/Scoped/Windowed.antt =====
-- Windows, ranks and projections.
use po_c_sqlagent.Base.{
  String, Bool, true, false, not, ◌≡◌, refl, List, [], ◌∷◌, ◌++◌ as append, All, In, all, ok, some,
  >>=-eq-ok, guard-eq-ok, if-eq-ok, ok-injective, subst, if◌then◌else◌,
}
use po_c_sqlagent.Text.{◌=ₛ◌, member, upper, join}
use po_c_sqlagent.Python.{Value, dict, Fields}
use po_c_sqlagent.Composer.{Schema, columns?, entries, text_or}
use po_c_sqlagent.Analytical.Terms.{ident}
use po_c_sqlagent.Analytical.Expressions.{compile_at}
use po_c_sqlagent.Analytical.Tables.{Stages, item, include, is_empty, subset, names_at}
use po_c_sqlagent.Analytical.Stages.{Compiled, idents, input}
use po_c_sqlagent.Analytical.Derived.{
  windows, ranking, over_part, window_sql, function_of, window_argument, compile_window,
  is_windowed, derived_sql, compile_derived, compile_deriveds, keeps, compile_project,
}
use po_c_sqlagent.Analytical.Lexer.{
  is_plain, Piece, Piece-append, Piece-plain, All-append, upper-word-is_plain,
}
use po_c_sqlagent.Analytical.Floats.{PlainFloats, PlainFields, entries-All}
use po_c_sqlagent.Analytical.Names.{Piece-cons, join-Piece, at_Piece}
use po_c_sqlagent.Analytical.Scoped.Defs.{stage, stage_column, derived, Name, ScopedSql}
use po_c_sqlagent.Analytical.Scoped.Sets.{subset-In, In_parts, include_self, include_kept}
use po_c_sqlagent.Analytical.Scoped.Inputs.{input-found, ident-Piece, idents-Pieces, Piece-earlier}
use po_c_sqlagent.Analytical.Scoped.Shaped.{select-Piece}
use po_c_sqlagent.Analytical.Scoped.Grouped.{named-Piece, Part}

over-Pieces :
    (P : String → Type 0) (word : String) (names : List String)
    → is_plain word ≡ true
    → All (Piece P) names
    → All (Piece P) (over_part word names)
unfolding over_part is_plain
over-Pieces P word [] h k = tt
over-Pieces P word (x ∷ xs) h k = (Piece-cons word _ h (join-Piece ", " (x ∷ xs) refl k), tt)

window-Piece_sql :
    {P : String → Type 0} (function argument : String) (partition order : List String)
    → member function windows ≡ true
    → Piece P argument
    → All (Piece P) partition
    → All (Piece P) order
    → Piece P (window_sql function argument partition order)
unfolding window_sql is_plain all
window-Piece_sql function argument partition order f a p o =
    Piece-cons (upper function) _ (upper-word-is_plain function windows refl f) (
      Piece-cons "(" _ refl (
        Piece-append argument _ a (
          Piece-cons ") OVER (" _ refl (
            Piece-append
              (join " "
                (append (over_part "PARTITION BY " partition) (over_part "ORDER BY " order)))
              ")"
              (join-Piece " " _ refl (
                All-append _ (over_part "PARTITION BY " partition) (over_part "ORDER BY " order)
                  (over-Pieces _ "PARTITION BY " partition refl p)
                  (over-Pieces _ "ORDER BY " order refl o)))
              (Piece-plain ")" refl)))))

window_argument-Piece :
    {P : String → Type 0} (columns : List String) (function : String) (fs : Fields) (sql : String)
    → (compile_at columns "value" fs ≡ ok sql → Piece P sql)
    → window_argument columns function fs ≡ ok sql
    → Piece P sql
unfolding window_argument is_plain
window_argument-Piece {P} columns function fs sql h e =
    if-eq-ok (member function ranking) _ _ sql
      (λ e₁. subst (Piece P) (ok-injective e₁) (Piece-plain "" refl)) h e

window-Piece :
    (schema : Schema) (outputs : Stages) (out columns : List String) (source kind : String)
    (fs : Fields) (sql : String)
    → columns? source outputs ≡ some columns
    → PlainFields fs
    → compile_window columns kind fs ≡ ok sql
    → Piece (Name schema outputs out) sql
unfolding compile_window
window-Piece schema outputs out columns source kind fs sql found plain h =
    let function = function_of kind fs in
    let (allowed, h₁) = guard-eq-ok (member function windows) _ _ h in
    let (argument, e₂, h₂) = >>=-eq-ok (window_argument columns function fs) _ h₁ in
    let (partition, e₃, h₃) = >>=-eq-ok (names_at "partition_by" fs) _ h₂ in
    let (order, e₄, h₄) = >>=-eq-ok (names_at "order_by" fs) _ h₃ in
    let (inside, h₅) = guard-eq-ok (subset (append partition order) columns) _ _ h₄ in
    let (partition_by, e₆, h₆) = >>=-eq-ok (idents partition) _ h₅ in
    let (order_by, e₇, h₇) = >>=-eq-ok (idents order) _ h₆ in
    subst (Piece (Name schema outputs out)) (ok-injective h₇) (
      window-Piece_sql function argument partition_by order_by allowed
        (window_argument-Piece columns function fs argument
          (λ e.
            Piece-earlier schema outputs out columns source argument found
              (at_Piece columns "value" fs argument plain e))
          e₂)
        (idents-Pieces schema outputs out partition partition_by
          (λ n m.
            stage_column source
              (columns, found, subset-In _ columns n inside ((In_parts n partition order).0 m)))
          e₆)
        (idents-Pieces schema outputs out order order_by
          (λ n m.
            stage_column source
              (columns, found, subset-In _ columns n inside ((In_parts n partition order).1 m)))
          e₇))

derived-Part :
    (schema : Schema) (outputs : Stages) (out columns : List String) (source kind : String)
    (v : Value) (p : String × String)
    → columns? source outputs ≡ some columns
    → PlainFloats v
    → compile_derived columns kind v ≡ ok p
    → Part schema outputs out p
unfolding compile_derived derived_sql PlainFloats
derived-Part schema outputs out columns source kind (dict fs) p found plain h =
    let alias = text_or "alias" "" fs in
    let (given, h₁) = guard-eq-ok (not (alias =ₛ "")) _ _ h in
    let (compiled, e₂, h₂) = >>=-eq-ok (derived_sql columns kind fs) _ h₁ in
    let (name, e₃, h₃) = >>=-eq-ok (ident alias) _ h₂ in
    subst (Part schema outputs out) (ok-injective h₃) (λ (m : In alias out).
      named-Piece compiled name
        (if-eq-ok (is_windowed kind) _ _ compiled
          (window-Piece schema outputs out columns source kind fs compiled found plain)
          (λ e.
            Piece-earlier schema outputs out columns source compiled found
              (at_Piece columns "expr" fs compiled plain e))
          e₂)
        (ident-Piece schema outputs out alias name (derived m) e₃))
derived-Part schema outputs out columns source kind _ p found plain h = absurd (cc h)

pub deriveds_kept :
    (columns : List String) (kind : String) (output : List String) (vs : List Value)
    (parts out : List String) (y : String)
    → compile_deriveds columns kind output vs ≡ ok (parts, out)
    → In y output
    → In y out
unfolding compile_deriveds
deriveds_kept columns kind output [] parts out y h m =
    subst (λ (p : List String × List String). In y p.1) (ok-injective h) m
deriveds_kept columns kind output (v ∷ vs) parts out y h m =
    let ((part, alias), e₁, h₁) = >>=-eq-ok (compile_derived columns kind v) _ h in
    let ((more, last), e₂, h₂) =
      >>=-eq-ok (compile_deriveds columns kind (include alias output) vs) _ h₁ in
    subst (λ (p : List String × List String). In y p.1) (ok-injective h₂)
      (deriveds_kept columns kind (include alias output) vs more last y e₂
        (include_kept alias y output m))

deriveds-Pieces :
    (schema : Schema) (outputs : Stages) (columns : List String) (source kind : String)
    (output : List String) (vs : List Value) (parts out : List String)
    → columns? source outputs ≡ some columns
    → All PlainFloats vs
    → compile_deriveds columns kind output vs ≡ ok (parts, out)
    → All (Piece (Name schema outputs out)) parts
unfolding compile_deriveds
deriveds-Pieces schema outputs columns source kind output [] parts out found plain h =
    subst (λ (p : List String × List String). All (Piece (Name schema outputs p.1)) p.0)
      (ok-injective h) tt
deriveds-Pieces schema outputs columns source kind output (v ∷ vs) parts out found plain h =
    let ((part, alias), e₁, h₁) = >>=-eq-ok (compile_derived columns kind v) _ h in
    let ((more, last), e₂, h₂) =
      >>=-eq-ok (compile_deriveds columns kind (include alias output) vs) _ h₁ in
    let kept =
      deriveds_kept columns kind (include alias output) vs more last alias e₂
        (include_self alias output) in
    subst (λ (p : List String × List String). All (Piece (Name schema outputs p.1)) p.0)
      {x = (part ∷ more, last)} (ok-injective h₂)
      (
        derived-Part schema outputs last columns source kind v (part, alias) found plain.0 e₁ kept,
        deriveds-Pieces schema outputs columns source kind (include alias output) vs more last found
            plain.1 e₂,
      )

starred-Pieces :
    (P : String → Type 0) (keep : Bool) (parts : List String)
    → All (Piece P) parts
    → All (Piece P) (if keep then "*" ∷ parts else parts)
unfolding is_plain
starred-Pieces P true parts h = (Piece-plain "*" refl, h)
starred-Pieces P false parts h = h

pub project-ScopedSql :
    (schema : Schema) (outputs grains : Stages) (kind : String) (fs : Fields) (c : Compiled)
    → PlainFields fs
    → compile_project kind fs outputs grains ≡ ok c
    → ScopedSql schema outputs c
unfolding compile_project
project-ScopedSql schema outputs grains kind fs c plain h =
    let ((source, columns), e₁, h₁) = >>=-eq-ok (input fs outputs) _ h in
    let found = input-found fs outputs source columns e₁ in
    let (expressions, e₂, h₂) = >>=-eq-ok (entries "expressions" fs) _ h₁ in
    let start = if keeps fs then columns else [] in
    let ((parts, output), e₃, h₃) =
      >>=-eq-ok (compile_deriveds columns kind start expressions) _ h₂ in
    let selected = if keeps fs then "*" ∷ parts else parts in
    let (some_part, h₄) = guard-eq-ok (not (is_empty selected)) _ _ h₃ in
    let (from, e₅, h₅) = >>=-eq-ok (ident source) _ h₄ in
    let (grain, e₆, h₆) = >>=-eq-ok (item source grains) _ h₅ in
    subst (ScopedSql schema outputs) (ok-injective h₆) (
      select-Piece selected from
        (starred-Pieces _ (keeps fs) parts (
          deriveds-Pieces schema outputs columns source kind start expressions parts output found
            (entries-All "expressions" fs expressions plain e₂) e₃))
        (ident-Piece schema outputs output source from (stage (columns, found)) e₅))
