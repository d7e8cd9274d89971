-- ===== src/Composer/Examples.antt =====
-- Plans of tests/test_composer.py, and the theorems at them.
use Prim.Native.String.{◌++◌}
use po_c_sqlagent.Base.{String, ◌≡◌, refl, none, some, [], ◌∷◌, ok, err}
use po_c_sqlagent.Python.{
  Value, iterate, get, int, pos, str, list, dict, nil, cons, end, field, value_error,
}
use po_c_sqlagent.Composer.Query.{Query, sql_of, IsSound}
use po_c_sqlagent.Composer.Scope.{assemble_spec-IsSound}
use po_c_sqlagent.Composer.Scan.{scan_token, scan-quote_ident, scan-quote_text}
use po_c_sqlagent.Composer.{
  quote_ident, quote_text, Schema, assemble_spec, assemble_query, text_or, check_table, entries,
  assemble_joins, assemble_dims, measures_of, assemble_measures, selects_something,
  assemble_filters, assemble_order, assemble_limit, render,
}

abbrev warehouse : Schema
warehouse =
    ("web_sales", "ws_bill_addr_sk" ∷ "ws_net_paid" ∷ "ws_sold_date_sk" ∷ [])
    ∷ ("customer_address", "ca_address_sk" ∷ "ca_state" ∷ [])
    ∷ ("date_dim", "d_date_sk" ∷ "d_year" ∷ [])
    ∷ []

abbrev net_paid : Value
net_paid = dict (
    field "agg" (str "sum") (
      field "table" (str "web_sales")
        (field "column" (str "ws_net_paid") (field "alias" (str "internet_revenue") end))))

abbrev by_state : Value
by_state = dict (field "table" (str "customer_address") (field "column" (str "ca_state") end))

abbrev address_join : Value
address_join = dict (
    field "table" (str "customer_address")
      (field "left" (str "ws_bill_addr_sk") (field "right" (str "ca_address_sk") end)))

abbrev revenue_plan : Value
revenue_plan = dict (
    field "from" (str "web_sales") (
      field "joins" (list (cons address_join nil)) (
        field "group_by" (list (cons by_state nil)) (
          field "measure" net_paid (
            field "order"
              (dict (field "by" (str "internet_revenue") (field "dir" (str "desc") end)))
              (field "limit" (int (pos 20)) end))))))

abbrev revenue_sql : String
revenue_sql =
    "SELECT \"customer_address\".\"ca_state\" AS \"ca_state\", SUM(\"web_sales\".\"ws_net_paid\") AS \"internet_revenue\" FROM \"web_sales\" JOIN \"customer_address\" ON \"web_sales\".\"ws_bill_addr_sk\" = \"customer_address\".\"ca_address_sk\" GROUP BY \"customer_address\".\"ca_state\" ORDER BY \"internet_revenue\" DESC LIMIT 20"

-- The whole assembler, for the runs below.
assembler : Unit {0}
unfolding assemble_spec assemble_query text_or check_table entries assemble_joins assemble_dims
    measures_of assemble_measures selects_something assemble_filters assemble_order assemble_limit
    render iterate get
assembler = tt

revenue_plan_assembles : assemble_spec warehouse none none revenue_plan ≡ ok revenue_sql
unfolding assembler
revenue_plan_assembles = refl

unknown_column :
    assemble_spec warehouse none none (
      dict (
        field "from"
          (str "web_sales")
          (field "measure" (dict (field "agg" (str "sum") (field "column" (str "nope") end))) end)))
    ≡ err (value_error "unknown column: web_sales.nope")
unfolding assembler
unknown_column = refl

assemble_spec-IsSound_example : (q : Query) × (revenue_sql ≡ sql_of q) × IsSound warehouse q
assemble_spec-IsSound_example =
    assemble_spec-IsSound warehouse none none revenue_plan revenue_sql tt revenue_plan_assembles

scan-quote_ident_example :
    scan_token "\"" (quote_ident "t\"; DROP" ++ " AS x") ≡ some ("t\"; DROP", " AS x")
scan-quote_ident_example = scan-quote_ident "t\"; DROP" " AS x" refl

scan-quote_text_example :
    scan_token "'" (quote_text "' OR 1 = 1" ++ " AND") ≡ some ("' OR 1 = 1", " AND")
scan-quote_text_example = scan-quote_text "' OR 1 = 1" " AND" refl
