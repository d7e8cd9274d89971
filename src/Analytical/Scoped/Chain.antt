-- ===== src/Analytical/Scoped/Chain.antt =====
-- The whole plan: every CTE reads the schema and the CTEs before it.
use Prim.Native.String.{◌++◌}
use po_c_sqlagent.Base.{
  ℕ, ◌+◌, String, true, ◌≡◌, refl, List, [], ◌∷◌, All, map, ok, >>=-eq-ok, guard-eq-ok, if-eq-ok,
  ok-injective, subst, ap, sym,
}
use po_c_sqlagent.Text.{◌=ₛ◌, member, join}
use po_c_sqlagent.Python.{Value, dict, list, cons, Fields, get, to_list}
use po_c_sqlagent.Composer.{Schema, has_table, text_or}
use po_c_sqlagent.Composer.Query.{TableOf}
use po_c_sqlagent.Composer.Sound.{has_table→TableOf}
use po_c_sqlagent.Analytical.Terms.{ident, quoted, is_identifier}
use po_c_sqlagent.Analytical.Tables.{Stages, assign, item}
use po_c_sqlagent.Analytical.Stages.{Compiled}
use po_c_sqlagent.Analytical.Derived.{compile_stage}
use po_c_sqlagent.Analytical.Plan.{
  CompiledPlan, stage_id, stage_types, checked_stage, compile_stages, compile_list, compile_plan,
  compile, final_id, with_query,
}
use po_c_sqlagent.Analytical.Lexer.{
  is_plain, NamesAre, Piece, Piece-append, Piece-plain, Piece-quoted, Piece-NamesAre,
}
use po_c_sqlagent.Analytical.Floats.{PlainFloats, PlainFields, to_list-All, get-PlainFloats}
use po_c_sqlagent.Analytical.Names.{Piece-cons, join-Piece, ident-quoted}
use po_c_sqlagent.Analytical.Scoped.Defs.{Name, ScopedSql}
use po_c_sqlagent.Analytical.Grains.Plan.{stages_of}
use po_c_sqlagent.Analytical.Scoped.Sourced.{AllSourced, stage-AllSourced}
use po_c_sqlagent.Analytical.Scoped.Inputs.{Piece-weaken}
use po_c_sqlagent.Analytical.Scoped.Shaped.{
  scan-ScopedSql, filter-ScopedSql, join-ScopedSql, union-ScopedSql,
}
use po_c_sqlagent.Analytical.Scoped.Grouped.{aggregate-ScopedSql}
use po_c_sqlagent.Analytical.Scoped.Windowed.{project-ScopedSql}

stage-ScopedSql :
    (schema : Schema) (known : String → String → String) (kind : String) (fs : Fields)
    (outputs grains : Stages) (c : Compiled)
    → PlainFields fs
    → compile_stage schema known kind fs outputs grains ≡ ok c
    → ScopedSql schema outputs c
unfolding compile_stage
stage-ScopedSql schema known kind fs outputs grains c plain h =
    if-eq-ok (kind =ₛ "scan") _ _ c (scan-ScopedSql schema outputs fs c)
      (if-eq-ok (kind =ₛ "filter") _ _ c (filter-ScopedSql schema outputs grains fs c plain) (
        if-eq-ok (kind =ₛ "join") _ _ c (join-ScopedSql schema known outputs grains fs c) (
          if-eq-ok (kind =ₛ "aggregate") _ _ c (aggregate-ScopedSql schema outputs grains fs c) (
            if-eq-ok (kind =ₛ "union_all") _ _ c (union-ScopedSql schema outputs grains fs c)
              (project-ScopedSql schema outputs grains kind fs c plain)))))
      h

-- A stage of the WITH query: its name, its SELECT, the set of its columns, and the stage of the plan
-- that it is made of.
pub record Cte : Type 0 where
  pub name : String
  pub body : String
  pub columns : List String
  pub stage : Fields

abbrev pub cte_sql : Cte → String
cte_sql c = quoted c.name ++ (" AS (" ++ (c.body ++ ")"))

-- The stages known after the CTEs.
pub known_after : Stages → List Cte → Stages
known_after outputs [] = outputs
known_after outputs (c ∷ cs) = known_after (assign c.name c.columns outputs) cs

-- Each CTE has a safe name and reads what is in scope: the schema, the CTEs before it and its own
-- columns, all of which come from the schema, from a CTE before it, or are declared by the stage.
abbrev pub WellScoped : Schema → Stages → List Cte → Type 0
WellScoped schema outputs [] = Unit
WellScoped schema outputs (c ∷ cs) =
    (is_identifier c.name ≡ true)
    × Piece (Name schema outputs c.columns) c.body
    × AllSourced schema outputs c.stage (c.body, c.columns, [])
    × WellScoped schema (assign c.name c.columns outputs) cs

checked-ScopedSql :
    (schema : Schema) (known : String → String → String) (position : ℕ) (fs : Fields)
    (outputs grains : Stages) (id : String) (c : Compiled)
    → PlainFields fs
    → checked_stage schema known position fs outputs grains ≡ ok (id, c)
    → (is_identifier id ≡ true) × ScopedSql schema outputs c × AllSourced schema outputs fs c
unfolding checked_stage
checked-ScopedSql schema known position fs outputs grains id c plain h =
    let name = stage_id position fs in
    let kind = text_or "type" "" fs in
    let (sql, e₁, h₁) = >>=-eq-ok (ident name) _ h in
    let (typed, h₂) = guard-eq-ok (member kind stage_types) _ _ h₁ in
    let (d, e₃, h₃) = >>=-eq-ok (compile_stage schema known kind fs outputs grains) _ h₂ in
    subst
      (λ (p : String × Compiled).
        (is_identifier p.0 ≡ true)
        × ScopedSql schema outputs p.1
        × AllSourced schema outputs fs p.1)
      (ok-injective h₃)
      (
        (ident-quoted name sql e₁).0,
        stage-ScopedSql schema known kind fs outputs grains d plain e₃,
        stage-AllSourced schema outputs fs known kind grains d e₃,
      )

abbrev pub stage_of : Cte → Value
stage_of c = dict c.stage

abbrev Scoped : Schema → Stages → List Value → List String × Stages × Stages → Type 0
Scoped schema outputs vs (sqls, after, grains) =
    (ctes : List Cte) × (map cte_sql ctes ≡ sqls)
    × (map stage_of ctes ≡ vs)
    × WellScoped schema outputs ctes
    × (known_after outputs ctes ≡ after)

stages-Scoped :
    (schema : Schema) (known : String → String → String) (position : ℕ) (vs : List Value)
    (outputs grains : Stages) (r : List String × Stages × Stages)
    → All PlainFloats vs
    → compile_stages schema known position vs outputs grains ≡ ok r
    → Scoped schema outputs vs r
unfolding compile_stages known_after PlainFloats
stages-Scoped schema known position [] outputs grains r plain h =
    subst (Scoped schema outputs []) (ok-injective h) ([], refl, refl, tt, refl)
stages-Scoped schema known position (dict fs ∷ vs) outputs grains r plain h =
    let ((id, (sql, columns, grain)), e₁, h₁) =
      >>=-eq-ok (checked_stage schema known position fs outputs grains) _ h in
    let (rest, e₂, h₂) =
      >>=-eq-ok
        (compile_stages schema known (position + 1) vs (assign id columns outputs)
          (assign id grain grains))
        _ h₁ in
    let (safe, body, sourced) =
      checked-ScopedSql schema known position fs outputs grains id (sql, columns, grain) plain.0
        e₁ in
    let (ctes, shown, made, scoped, after) =
      stages-Scoped schema known (position + 1) vs (assign id columns outputs)
        (assign id grain grains) rest plain.1 e₂ in
    let cte : Cte = record { name = id; body = sql; columns = columns; stage = fs } in
    subst (Scoped schema outputs (dict fs ∷ vs)) (ok-injective h₂) (
      cte ∷ ctes,
      ap (λ l. cte_sql cte ∷ l) shown,
      ap (λ l. dict fs ∷ l) made,
      (safe, body, sourced, scoped),
      after,
    )
stages-Scoped schema known position _ outputs grains r plain h = absurd (cc h)

-- A compiled plan: its CTEs are those of the plan's stages and well scoped, the last SELECT reads one of
-- them, and the whole is one statement whose quoted names are all identifiers.
pub record IsScoped (schema : Schema) (stages : List Value) (c : CompiledPlan) : Type 0 where
  pub ctes : List Cte
  pub made_of : map stage_of ctes ≡ stages
  pub final : String
  pub sql_is : c.sql ≡ with_query (map cte_sql ctes) (quoted final)
  pub scoped : WellScoped schema [] ctes
  pub final_known : TableOf (known_after [] ctes) final
  pub one_statement : NamesAre (λ n. is_identifier n ≡ true) c.sql

abbrev IsSafe : String → Type 0
IsSafe n = is_identifier n ≡ true

cte-Piece :
    (schema : Schema) (outputs : Stages) (c : Cte)
    → is_identifier c.name ≡ true
    → Piece (Name schema outputs c.columns) c.body
    → Piece IsSafe (cte_sql c)
unfolding is_plain
cte-Piece schema outputs c h p = Piece-append (quoted c.name) _ (Piece-quoted c.name h h) (
    Piece-cons " AS (" _ refl
      (Piece-append c.body ")" (Piece-weaken c.body (λ n k. k.0) p) (Piece-plain ")" refl)))

ctes-Pieces :
    (schema : Schema) (outputs : Stages) (cs : List Cte)
    → WellScoped schema outputs cs
    → All (Piece IsSafe) (map cte_sql cs)
ctes-Pieces schema outputs [] h = tt
ctes-Pieces schema outputs (c ∷ cs) h = (
  cte-Piece schema outputs c h.0 h.1,
  ctes-Pieces schema (assign c.name c.columns outputs) cs h.3,
)

with_query-NamesAre :
    (schema : Schema) (cs : List Cte) (final : String)
    → WellScoped schema [] cs
    → is_identifier final ≡ true
    → NamesAre IsSafe (with_query (map cte_sql cs) (quoted final))
unfolding with_query is_plain
with_query-NamesAre schema cs final h safe = Piece-NamesAre _ (
    Piece-cons "WITH " _ refl (
      Piece-append (join ",\n" (map cte_sql cs)) _
        (join-Piece ",\n" (map cte_sql cs) refl (ctes-Pieces schema [] cs h))
        (Piece-cons "\nSELECT * FROM " _ refl (Piece-quoted final safe safe))))

list-IsScoped :
    (schema : Schema) (known : String → String → String) (plan : Fields) (vs : List Value)
    (c : CompiledPlan)
    → All PlainFloats vs
    → compile_list schema known plan vs ≡ ok c
    → IsScoped schema vs c
unfolding compile_list
list-IsScoped schema known plan vs c plain h =
    let ((sqls, outputs, grains), e₁, h₁) =
      >>=-eq-ok (compile_stages schema known 1 vs [] []) _ h in
    let final = final_id plan vs in
    let (there, h₂) = guard-eq-ok (has_table outputs final) _ _ h₁ in
    let (from, e₃, h₃) = >>=-eq-ok (ident final) _ h₂ in
    let (columns, e₄, h₄) = >>=-eq-ok (item final outputs) _ h₃ in
    let (grain, e₅, h₅) = >>=-eq-ok (item final grains) _ h₄ in
    let (ctes, shown, made, scoped, after) =
      stages-Scoped schema known 1 vs [] [] (sqls, outputs, grains) plain e₁ in
    let (safe, q) = ident-quoted final from e₃ in
    let sql : with_query sqls from ≡ with_query (map cte_sql ctes) (quoted final) =
      subst (λ l. with_query l from ≡ with_query (map cte_sql ctes) (quoted final)) shown
        (ap (with_query (map cte_sql ctes)) (sym q)) in
    subst (IsScoped schema vs) (ok-injective h₅) (record {
      ctes = ctes;
      made_of = made;
      final = final;
      sql_is = sql;
      scoped = scoped;
      final_known =
          subst (λ d. TableOf d final) (sym after) (has_table→TableOf outputs final there);
      one_statement =
          subst (NamesAre IsSafe) (sym sql) (with_query-NamesAre schema ctes final scoped safe);
    })

plan-IsScoped :
    (schema : Schema) (known : String → String → String) (plan : Fields) (v : Value)
    (c : CompiledPlan)
    → PlainFloats v
    → compile_plan schema known plan v ≡ ok c
    → IsScoped schema (stages_of v) c
unfolding compile_plan PlainFloats
plan-IsScoped schema known plan (list (cons v vs)) c plain h =
    list-IsScoped schema known plan (v ∷ to_list vs) c (plain.0, to_list-All vs plain.1) h
plan-IsScoped schema known plan _ c plain h = absurd (cc h)

-- Where the floats of a plan hold no quote and no semicolon, a plan that compiles gives a WITH query
-- of CTEs, one for each stage of the plan and in its order, and a last SELECT of one of them. Each CTE
-- has a safe name, and every quoted name in it is a safe identifier that is a table of the schema or a
-- column of one, a CTE before it or a column of one, or a column of its own output. A column of an
-- output is a column of the schema or of a CTE before, or the alias of a measure or an expression of
-- the stage. To the SQL lexer the whole is one statement with every quote closed, whatever its literals
-- hold.
pub compile-IsScoped :
    (schema : Schema) (known : String → String → String) (plan : Fields) (c : CompiledPlan)
    → PlainFields plan
    → compile schema known plan ≡ ok c
    → IsScoped schema (stages_of (get "stages" plan)) c
unfolding compile
compile-IsScoped schema known plan c plain h =
    plan-IsScoped schema known plan (get "stages" plan) c (get-PlainFloats "stages" plan plain) h
