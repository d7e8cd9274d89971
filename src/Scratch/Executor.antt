-- ===== src/Scratch/Executor.antt =====
-- sqlagent/scratch.py: ScratchExecutor.execute. The hash of a table's name and sqlparse are
-- parameters; the limiter's slot around the run and the time that it takes are left out.
use Prim.Native.String.{◌++◌}
use po_c_sqlagent.Base.{
  ℕ, ◌+◌, ◌*◌, String, Bool, not, List, [], ◌∷◌, ◌++◌ as append, map, err, guard, ltb, length, take,
}
use po_c_sqlagent.Text.{show_nat, replace_text}
use po_c_sqlagent.Python.{
  set_field, Value, dict, Fields, end, Py, Error, value_error, runtime_error,
}
use po_c_sqlagent.Database.{validate_read_only, Cell, json_safe}
use po_c_sqlagent.Scratch.Session.{Server, Io, ◌>>=◌, ◌>>◌, return, lift, send}

-- ScratchLimits.
pub record Limits : Type 0 where
  pub max_rows : ℕ
  pub max_bytes : ℕ
  pub timeout_ms : ℕ

abbrev pub default_limits : Limits
default_limits = record { max_rows = 1000000; max_bytes = 512 * 1024 * 1024; timeout_ms = 120000 }

-- QueryResult, without the elapsed time.
pub record QueryResult : Type 0 where
  pub columns : List String
  pub rows : List Value
  pub truncated : Bool

-- `dict(zip(columns, row))`: a later column of the same name wins.
zip_into : Fields → List String → List Value → Fields
unfolding set_field
zip_into fs (c ∷ cs) (v ∷ vs) = zip_into (set_field c v fs) cs vs
zip_into fs _ _ = fs

unfoldable pub row_of : List String → List Cell → Value
unfolding zip_into json_safe
row_of columns row = dict (zip_into end columns (map json_safe row))

-- At most `preview_rows` rows of those fetched, and whether one more was there.
unfoldable pub preview : ℕ → List String → List (List Cell) → QueryResult
unfolding row_of
preview preview_rows columns fetched = record {
  columns = columns;
  rows = map (row_of columns) (take preview_rows fetched);
  truncated = ltb preview_rows (length fetched);
}

abbrev pub read_only_sql : String
read_only_sql = "SET default_transaction_read_only = on"

unfoldable pub timeout_sql : ℕ → String
unfolding show_nat
timeout_sql n = "SET LOCAL statement_timeout = " ++ show_nat n

unfoldable pub create_sql : String → String → ℕ → String
unfolding show_nat
create_sql name query max_rows =
    "CREATE TEMP TABLE \""
    ++ (name
        ++ ("\" ON COMMIT DROP AS SELECT * FROM ("
            ++ (query ++ (") AS bounded_stage LIMIT " ++ show_nat (max_rows + 1)))))

unfoldable pub count_sql : String → String
count_sql name = "SELECT count(*) FROM pg_temp.\"" ++ (name ++ "\"")

-- The argument of `%s` filled in.
unfoldable pub size_sql : String → String
size_sql name =
    "SELECT pg_total_relation_size(oid) FROM pg_class WHERE oid = 'pg_temp."
    ++ (name ++ "'::regclass")

-- The placeholders of the tables before, numbered from one, turned into their names.
unfoldable pub expand : ℕ → List String → String → String
unfolding replace_text show_nat
expand n [] sql = sql
expand n (name ∷ names) sql =
    expand (n + 1) names
      (replace_text ("{{stage_" ++ (show_nat n ++ "}}")) ("pg_temp.\"" ++ (name ++ "\"")) sql)

-- ScratchLimitError.
unfoldable pub within : String → ℕ → ℕ → Py (Unit {0})
unfolding show_nat
within what n bound = guard (not (ltb bound n)) (
    runtime_error
      ("scratch " ++ (what ++ (" limit exceeded: " ++ (show_nat n ++ (" > " ++ show_nat bound))))))

abbrev pub no_stages : Error
no_stages = value_error "scratch execution requires at least one materialized stage"

module _ (server : Server) (limits : Limits) (preview_rows : ℕ) (digest : String → ℕ → String)
    (format_sql : String → String) (statements : String → ℕ) where
  -- `_name`.
  unfoldable pub table_name : String → ℕ → String
  unfolding show_nat
  table_name request_id index = "sqlagent_" ++ (show_nat index ++ ("_" ++ digest request_id index))

  unfoldable pub run_stage : String → ℕ → List String → String → Io String
  unfolding expand validate_read_only table_name create_sql count_sql size_sql within
  run_stage request_id index names sql = do
    query ← lift (validate_read_only format_sql statements [] (expand 1 names sql))
    let name = table_name request_id index
    send server.execute (create_sql name query limits.max_rows)
    rows ← send server.number (count_sql name)
    size ← send server.number (size_sql name)
    lift (within "row" rows limits.max_rows)
    lift (within "byte" size limits.max_bytes)
    return name

  -- The loop over the stages, with the names of the tables so far.
  unfoldable pub run_stages : String → ℕ → List String → List String → Io (List String)
  unfolding run_stage
  run_stages request_id index names [] = return names
  run_stages request_id index names (sql ∷ sqls) = run_stage request_id index names sql >>= λ name.
      run_stages request_id (index + 1) (append names (name ∷ [])) sqls

  unfoldable pub run_final : List String → String → Io QueryResult
  unfolding expand validate_read_only preview
  run_final names final_sql = do
    query ← lift (validate_read_only format_sql statements [] (expand 1 names final_sql))
    (columns, fetched) ← send (λ sent sql. server.fetch sent sql (preview_rows + 1)) query
    return (preview preview_rows columns fetched)

  unfoldable pub execute_scratch : String → List String → String → Io QueryResult
  unfolding timeout_sql run_stages run_final
  execute_scratch request_id [] final_sql = lift (err no_stages)
  execute_scratch request_id (sql ∷ sqls) final_sql = do
    send server.execute read_only_sql
    send server.execute (timeout_sql limits.timeout_ms)
    names ← run_stages request_id 1 [] (sql ∷ sqls)
    run_final names final_sql
