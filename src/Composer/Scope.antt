-- ===== src/Composer/Scope.antt =====
-- An assembled query keeps to the schema.
use po_c_sqlagent.Base.{
  ◌≤◌, String, true, ◌≡◌, ◌≢◌, refl, ◌⊎◌, inl, inr, Option, List, [], ◌∷◌, map, ok, >>=-eq-ok,
  guard-eq-ok, ok-injective, subst, length, ap, sym, ◌∙◌, leb→le, leb,
}
use po_c_sqlagent.Python.{ℤ, Value, dict, Fields, get, iterate}
use po_c_sqlagent.Composer.Check.{Schema, check_table}
use po_c_sqlagent.Composer.Parts.{
  text_or, assemble_joins, assemble_dims, assemble_measures, assemble_filters,
}
use po_c_sqlagent.Composer.Assemble.{
  assemble_order, assemble_limit, assemble_query, assemble_spec, selects_something, snd, entries,
  measures_of, render, max_joins, max_measures,
}
use po_c_sqlagent.Composer.Query.{
  order_sql, OrderOf, PositiveLimit, Query, sql_of, IsSound, MeasurePart, measure_sql, alias_of,
  join_sql, filter_sql,
}
use po_c_sqlagent.Composer.Sound.{
  check_table→TableOf, dims-All, measures-MeasuresFrom, filters-FilterFrom,
}
use po_c_sqlagent.Composer.Ordered.{order-OrderFrom, limit-PositiveLimit}
use po_c_sqlagent.Composer.Joins.{joins-JoinsFrom}

selects-cases :
    (dims measures : List (String × String))
    → selects_something dims measures ≡ true
    → (dims ≢ []) ⊎ (measures ≢ [])
unfolding selects_something
selects-cases [] [] h = absurd (cc h)
selects-cases [] (m ∷ ms) h = inr (λ e. cc e)
selects-cases (d ∷ ds) ms h = inl (λ e. cc e)

map-ne-nil : {A B : Type 0} (f : A → B) (xs : List A) → map f xs ≢ [] → xs ≢ []
map-ne-nil f xs h e = h (ap (map f) e)

map-alias_of : (ms : List MeasurePart) → map snd (map measure_sql ms) ≡ map alias_of ms
map-alias_of [] = refl
map-alias_of (m ∷ ms) = cc (map-alias_of ms)

render-sql_of :
    (q : Query) {joins filters : List String} {measures : List (String × String)} {order : String}
    → map join_sql q.joins ≡ joins
    → map measure_sql q.measures ≡ measures
    → map filter_sql q.filters ≡ filters
    → order_sql q.order ≡ order
    → render q.base joins q.dims measures filters order q.limit ≡ sql_of q
unfolding sql_of
render-sql_of q j m f o = cc

abbrev Assembles : Schema → String → Type 0
Assembles schema sql = (q : Query) × (sql ≡ sql_of q) × IsSound schema q

selected :
    (ms : List MeasurePart) (dims measures : List (String × String))
    → map measure_sql ms ≡ measures
    → selects_something dims measures ≡ true
    → (dims ≢ []) ⊎ (ms ≢ [])
selected ms dims measures shown h = elim (selects-cases dims measures h) [
  | inl d ↦ inl d
  | inr m ↦ inr (map-ne-nil measure_sql ms (subst (λ l. l ≢ []) (sym shown) m))
]

-- What each part of a plan has come to, where the assembler accepts it.
record Run (schema : Schema) (default_limit max_limit : Option ℤ) (spec : Fields) (sql : String)
    : Type 0 where
  join_values : List Value
  joined : List String × List String
  dim_values : List Value
  dims : List (String × String)
  wanted : List Value
  measures : List (String × String)
  filter_values : List Value
  filters : List String
  order : String
  limit : Option ℤ
  base_known : check_table schema (text_or "from" "" spec) ≡ ok tt
  few_joins : leb (length join_values) max_joins ≡ true
  joins_ok : assemble_joins schema (text_or "from" "" spec ∷ []) join_values ≡ ok joined
  dims_ok : assemble_dims schema joined.0 (text_or "from" "" spec) dim_values ≡ ok dims
  few_measures : leb (length wanted) max_measures ≡ true
  measures_ok : assemble_measures schema joined.0 (text_or "from" "" spec) [] wanted ≡ ok measures
  selects : selects_something dims measures ≡ true
  filters_ok : assemble_filters schema joined.0 (text_or "from" "" spec) filter_values ≡ ok filters
  order_ok : assemble_order (map snd dims) (map snd measures) (get "order" spec) ≡ ok order
  limit_ok : assemble_limit default_limit max_limit spec ≡ ok limit
  sql_is : render (text_or "from" "" spec) joined.1 dims measures filters order limit ≡ sql

query-Run :
    (schema : Schema) (default_limit max_limit : Option ℤ) (spec : Fields) (sql : String)
    → assemble_query schema default_limit max_limit spec ≡ ok sql
    → Run schema default_limit max_limit spec sql
unfolding assemble_query
query-Run schema default_limit max_limit spec sql h =
    let base = text_or "from" "" spec in
    let (u, base_known, h₁) = >>=-eq-ok (check_table schema base) _ h in
    let (join_values, e₂, h₂) = >>=-eq-ok (entries "joins" spec) _ h₁ in
    let (few_joins, h₃) = guard-eq-ok (leb (length join_values) max_joins) _ _ h₂ in
    let (joined, joins_ok, h₄) = >>=-eq-ok (assemble_joins schema (base ∷ []) join_values) _ h₃ in
    let (dim_values, e₅, h₅) = >>=-eq-ok (entries "group_by" spec) _ h₄ in
    let (dims, dims_ok, h₆) = >>=-eq-ok (assemble_dims schema joined.0 base dim_values) _ h₅ in
    let (wanted, e₇, h₇) = >>=-eq-ok (iterate (measures_of spec)) _ h₆ in
    let (few_measures, h₈) = guard-eq-ok (leb (length wanted) max_measures) _ _ h₇ in
    let (measures, measures_ok, h₉) =
      >>=-eq-ok (assemble_measures schema joined.0 base [] wanted) _ h₈ in
    let (selects, k₁) = guard-eq-ok (selects_something dims measures) _ _ h₉ in
    let (filter_values, e₁₁, k₂) = >>=-eq-ok (entries "filters" spec) _ k₁ in
    let (filters, filters_ok, k₃) =
      >>=-eq-ok (assemble_filters schema joined.0 base filter_values) _ k₂ in
    let (order, order_ok, k₄) =
      >>=-eq-ok (assemble_order (map snd dims) (map snd measures) (get "order" spec)) _ k₃ in
    let (limit, limit_ok, k₅) = >>=-eq-ok (assemble_limit default_limit max_limit spec) _ k₄ in
    record {
      join_values = join_values;
      joined = joined;
      dim_values = dim_values;
      dims = dims;
      wanted = wanted;
      measures = measures;
      filter_values = filter_values;
      filters = filters;
      order = order;
      limit = limit;
      base_known = base_known;
      few_joins = few_joins;
      joins_ok = joins_ok;
      dims_ok = dims_ok;
      few_measures = few_measures;
      measures_ok = measures_ok;
      selects = selects;
      filters_ok = filters_ok;
      order_ok = order_ok;
      limit_ok = limit_ok;
      sql_is = ok-injective k₅;
    }

-- The query that the accepted parts stand for.
Run-Assembles :
    (schema : Schema) (default_limit max_limit : Option ℤ) (spec : Fields) (sql : String)
    → PositiveLimit max_limit
    → Run schema default_limit max_limit spec sql
    → Assembles schema sql
Run-Assembles schema default_limit max_limit spec sql hm r =
    let base = text_or "from" "" spec in
    let (js, js_shown, chain, js_counted) =
      joins-JoinsFrom schema (base ∷ []) r.join_values r.joined r.joins_ok in
    let (ms, ms_shown, ms_sound, fresh, ms_counted) =
      measures-MeasuresFrom schema r.joined.0 base [] r.wanted r.measures r.measures_ok in
    let (fs, fs_shown, fs_sound) =
      filters-FilterFrom schema r.joined.0 base r.filter_values r.filters r.filters_ok in
    let (o, o_shown, o_sound) =
      order-OrderFrom (map snd r.dims) (map snd r.measures) (get "order" spec) r.order r.order_ok in
    let q : Query = record {
      base = base;
      joins = js;
      dims = r.dims;
      measures = ms;
      filters = fs;
      order = o;
      limit = r.limit;
    } in
    let aliases : map snd r.measures ≡ map alias_of ms =
      subst (λ l. map snd l ≡ map alias_of ms) ms_shown (map-alias_of ms) in
    (
      q,
      sym r.sql_is ∙ render-sql_of q js_shown ms_shown fs_shown o_shown,
      record {
        known = r.joined.0;
        base_known = check_table→TableOf schema base r.base_known;
        joins_known = chain;
        few_joins = subst (λ n. n ≤ 4) (sym js_counted) (leb→le _ _ r.few_joins);
        dims_known = dims-All schema r.joined.0 base r.dim_values r.dims r.dims_ok;
        measures_known = ms_sound;
        aliases_fresh = fresh;
        few_measures = subst (λ n. n ≤ 4) (sym ms_counted) (leb→le _ _ r.few_measures);
        selects = selected ms r.dims r.measures ms_shown r.selects;
        filters_known = fs_sound;
        order_selected = subst (λ l. OrderOf (map snd r.dims) l o) aliases o_sound;
        limit_positive = limit-PositiveLimit default_limit max_limit spec r.limit hm r.limit_ok;
      },
    )

-- With no limit above or a positive one, a plan that the assembler accepts gives the text of a
-- query that keeps to the schema: its tables, and its columns unless they are the star, are the
-- schema's; every table is joined before it is used and by a column that its schema has; there are
-- at most four joins and four measures, and a dimension or a measure; the aggregations and filter
-- operators are the allowed ones; no measure alias occurs twice; the order is by a selected column
-- or alias; and the limit is positive.
pub assemble_spec-IsSound :
    (schema : Schema) (default_limit max_limit : Option ℤ) (plan : Value) (sql : String)
    → PositiveLimit max_limit
    → assemble_spec schema default_limit max_limit plan ≡ ok sql
    → (q : Query) × (sql ≡ sql_of q) × IsSound schema q
unfolding assemble_spec
assemble_spec-IsSound schema default_limit max_limit (dict spec) sql hm h =
    Run-Assembles schema default_limit max_limit spec sql hm
      (query-Run schema default_limit max_limit spec sql h)
assemble_spec-IsSound schema default_limit max_limit _ sql hm h = absurd (cc h)
