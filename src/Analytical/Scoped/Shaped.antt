-- ===== src/Analytical/Scoped/Shaped.antt =====
-- Scans, filters, joins and unions.
use po_c_sqlagent.Base.{
  String, Bool, true, not, ◌&&◌, ◌≡◌, refl, List, [], ◌∷◌, All, In, all, ok, >>=-eq-ok, guard-eq-ok,
  ok-injective, subst, arith, length, ltb,
}
use po_c_sqlagent.Text.{member, upper, join}
use po_c_sqlagent.Text.Laws.{member→In}
use po_c_sqlagent.Python.{Fields}
use po_c_sqlagent.Composer.{Schema, has_table, text_or, sorted}
use po_c_sqlagent.Composer.Sound.{has_table→TableOf}
use po_c_sqlagent.Analytical.Terms.{ident}
use po_c_sqlagent.Analytical.Expressions.{compile_at}
use po_c_sqlagent.Analytical.Tables.{Stages, item, to_set, union, subset, schema_columns, names_at}
use po_c_sqlagent.Analytical.Stages.{
  Compiled, idents, input, selected_columns, select_from, compile_scan, compile_filter,
  compile_join, join_sql, join_kinds,
}
use po_c_sqlagent.Analytical.JoinRun.{compile_join-JoinRun, left_of, right_of, how_of}
use po_c_sqlagent.Analytical.Derived.{
  compile_union, first_input, later_inputs, same_columns, same_grains, union_parts,
}
use po_c_sqlagent.Analytical.Lexer.{is_plain, Piece, Piece-append, upper-word-is_plain}
use po_c_sqlagent.Analytical.Floats.{PlainFields}
use po_c_sqlagent.Analytical.Names.{Piece-cons, join-Piece, at_Piece}
use po_c_sqlagent.Analytical.Scoped.Defs.{
  InScope, table, column, stage, stage_column, Name, ScopedSql,
}
use po_c_sqlagent.Analytical.Scoped.Sets.{subset-In, sorted-In, schema_columns-ColumnOf}
use po_c_sqlagent.Analytical.Scoped.Inputs.{
  item-found, input-found, ident-Piece, idents-Pieces, Piece-earlier,
}

pub select-Piece :
    {P : String → Type 0} (parts : List String) (source : String)
    → All (Piece P) parts
    → Piece P source
    → Piece P (select_from parts source)
unfolding select_from is_plain
select-Piece parts source h k =
    Piece-cons "SELECT " _ refl (
      Piece-append (join ", " parts) _ (join-Piece ", " parts refl h)
        (Piece-cons " FROM " _ refl k))

pub scan-ScopedSql :
    (schema : Schema) (outputs : Stages) (fs : Fields) (c : Compiled)
    → compile_scan schema fs ≡ ok c
    → ScopedSql schema outputs c
unfolding compile_scan
scan-ScopedSql schema outputs fs c h =
    let t = text_or "table" "" fs in
    let (known, h₁) = guard-eq-ok (has_table schema t) _ _ h in
    let (selected, e₂, h₂) = >>=-eq-ok (selected_columns schema t fs) _ h₁ in
    let (inside, h₃) = guard-eq-ok (subset selected (schema_columns schema t)) _ _ h₂ in
    let (grain, e₄, h₄) = >>=-eq-ok (names_at "grain" fs) _ h₃ in
    let (covered, h₅) = guard-eq-ok (subset grain selected) _ _ h₄ in
    let (parts, e₆, h₆) = >>=-eq-ok (idents selected) _ h₅ in
    let (source, e₇, h₇) = >>=-eq-ok (ident t) _ h₆ in
    let out = to_set selected in
    subst (ScopedSql schema outputs) (ok-injective h₇) (
      select-Piece parts source
        (idents-Pieces schema outputs out selected parts
          (λ n m. column t (
            schema_columns-ColumnOf schema t n
              (subset-In selected (schema_columns schema t) n inside m)))
          e₆)
        (ident-Piece schema outputs out t source (table (has_table→TableOf schema t known)) e₇))

pub filter-ScopedSql :
    (schema : Schema) (outputs grains : Stages) (fs : Fields) (c : Compiled)
    → PlainFields fs
    → compile_filter fs outputs grains ≡ ok c
    → ScopedSql schema outputs c
unfolding compile_filter is_plain
filter-ScopedSql schema outputs grains fs c plain h =
    let ((source, columns), e₁, h₁) = >>=-eq-ok (input fs outputs) _ h in
    let found = input-found fs outputs source columns e₁ in
    let (predicate, e₂, h₂) = >>=-eq-ok (compile_at columns "where" fs) _ h₁ in
    let (from, e₃, h₃) = >>=-eq-ok (ident source) _ h₂ in
    let (grain, e₄, h₄) = >>=-eq-ok (item source grains) _ h₃ in
    subst (ScopedSql schema outputs) (ok-injective h₄) (
      Piece-cons "SELECT * FROM " _ refl (
        Piece-append from _
          (ident-Piece schema outputs columns source from (stage (columns, found)) e₃)
          (Piece-cons " WHERE " _ refl (
            Piece-earlier schema outputs columns columns source predicate found
              (at_Piece columns "where" fs predicate plain e₂)))))

join-Piece_sql :
    {P : String → Type 0} (left how right left_key right_key : String)
    → is_plain (upper how) ≡ true
    → Piece P left
    → Piece P right
    → Piece P left_key
    → Piece P right_key
    → Piece P (join_sql left how right left_key right_key)
unfolding join_sql is_plain
join-Piece_sql left how right left_key right_key w l r lk rk =
    Piece-cons "SELECT l.*, r.* FROM " _ refl (
      Piece-append left _ l (
        Piece-cons " AS l " _ refl (
          Piece-cons (upper how) _ w (
            Piece-cons " JOIN " _ refl (
              Piece-append right _ r (
                Piece-cons " AS r ON l." _ refl
                  (Piece-append left_key _ lk (Piece-cons " = r." _ refl rk))))))))

pub &&-parts : (a b : Bool) → (a && b) ≡ true → (a ≡ true) × (b ≡ true)
&&-parts a b h = ground arith

pub join-ScopedSql :
    (schema : Schema) (known : String → String → String) (outputs grains : Stages) (fs : Fields)
    (c : Compiled)
    → compile_join known fs outputs grains ≡ ok c
    → ScopedSql schema outputs c
unfolding all is_plain
join-ScopedSql schema known outputs grains fs c h =
    let r = compile_join-JoinRun known fs outputs grains c h in
    let left = left_of fs in
    let right = right_of fs in
    let lkey = text_or "left_key" "" fs in
    let rkey = text_or "right_key" "" fs in
    let out = union r.left_columns r.right_columns in
    let lf = item-found left outputs r.left_columns r.left_found in
    let rf = item-found right outputs r.right_columns r.right_found in
    let (lin, rin) = &&-parts (member lkey r.left_columns) (member rkey r.right_columns) r.keyed in
    subst (ScopedSql schema outputs) r.result (
      join-Piece_sql r.left_from (how_of fs) r.right_from r.left_on r.right_on
        (upper-word-is_plain (how_of fs) join_kinds refl r.kind)
        (ident-Piece schema outputs out left r.left_from (stage (r.left_columns, lf)) r.left_ident)
        (ident-Piece schema outputs out right r.right_from (stage (r.right_columns, rf))
          r.right_ident)
        (ident-Piece schema outputs out lkey r.left_on
          (stage_column left (r.left_columns, lf, member→In lkey r.left_columns lin))
          r.left_key_ident)
        (ident-Piece schema outputs out rkey r.right_on
          (stage_column right (r.right_columns, rf, member→In rkey r.right_columns rin))
          r.right_key_ident))

union_parts-Pieces :
    (schema : Schema) (outputs : Stages) (columns ordered inputs sqls : List String)
    → ((n : String) → In n ordered → InScope schema outputs columns n)
    → all (has_table outputs) inputs ≡ true
    → union_parts ordered inputs ≡ ok sqls
    → All (Piece (Name schema outputs columns)) sqls
unfolding union_parts all
union_parts-Pieces schema outputs columns ordered [] sqls scope known e =
    subst (All (Piece (Name schema outputs columns))) (ok-injective e) tt
union_parts-Pieces schema outputs columns ordered (x ∷ xs) sqls scope known e =
    let (cols, e₁, r₁) = >>=-eq-ok (idents ordered) _ e in
    let (source, e₂, r₂) = >>=-eq-ok (ident x) _ r₁ in
    let (rest, e₃, r₃) = >>=-eq-ok (union_parts ordered xs) _ r₂ in
    let (one, more) = &&-parts (has_table outputs x) (all (has_table outputs) xs) known in
    subst (All (Piece (Name schema outputs columns))) {x = select_from cols source ∷ rest}
      (ok-injective r₃)
      (
        select-Piece cols source (idents-Pieces schema outputs columns ordered cols scope e₁) (
            ident-Piece schema outputs columns x source (stage (has_table→TableOf outputs x one))
              e₂),
        union_parts-Pieces schema outputs columns ordered xs rest scope more e₃,
      )

pub union-ScopedSql :
    (schema : Schema) (outputs grains : Stages) (fs : Fields) (c : Compiled)
    → compile_union fs outputs grains ≡ ok c
    → ScopedSql schema outputs c
unfolding compile_union is_plain
union-ScopedSql schema outputs grains fs c h =
    let (inputs, e₁, h₁) = >>=-eq-ok (names_at "inputs" fs) _ h in
    let (prior, h₂) =
      guard-eq-ok (not (ltb (length inputs) 2) && all (has_table outputs) inputs) _ _ h₁ in
    let (head, e₃, h₃) = >>=-eq-ok (first_input inputs) _ h₂ in
    let (first, e₄, h₄) = >>=-eq-ok (item head outputs) _ h₃ in
    let (same, e₅, h₅) = >>=-eq-ok (same_columns first outputs (later_inputs inputs)) _ h₄ in
    let (identical, h₆) = guard-eq-ok same _ _ h₅ in
    let (parts, e₇, h₇) = >>=-eq-ok (union_parts (sorted first) inputs) _ h₆ in
    let (grain, e₈, h₈) = >>=-eq-ok (item head grains) _ h₇ in
    let (equal, e₉, h₉) = >>=-eq-ok (same_grains grain grains inputs) _ h₈ in
    subst (ScopedSql schema outputs) (ok-injective h₉) (
      join-Piece " UNION ALL " parts refl (
        union_parts-Pieces schema outputs first (sorted first) inputs parts
          (λ n m. stage_column head (first, item-found head outputs first e₄, sorted-In n first m))
          (&&-parts _ _ prior).1 e₇))
