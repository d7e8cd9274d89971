-- ===== src/Scratch/Issued.antt =====
-- sqlagent/scratch.py: what a run of ScratchExecutor sends to the server.
use po_c_sqlagent.Base.{
  ℕ, zero, suc, ◌+◌, ◌≤◌, min, String, true, ◌≡◌, refl, ap, ◌∙◌, inl, inr, Bool-cases, ltb, arith,
  tests, List, [], ◌∷◌, ◌++◌ as append, map, length, take, All, ok, err,
}
use po_c_sqlagent.Python.{Py}
use po_c_sqlagent.Database.{Cell, validate_read_only, IsReadOnly, validate_read_only-IsReadOnly}
use po_c_sqlagent.Scratch.Session.{Server, Io, after, ◌>>=◌, return, lift, send}
use po_c_sqlagent.Scratch.Executor.{
  Limits, QueryResult, row_of, preview, read_only_sql, timeout_sql, create_sql, count_sql, size_sql,
  expand, table_name, within, run_stage, run_stages, run_final, execute_scratch,
}

abbrev pub Returned : {A : Type 0} → (A → Type 0) → Py A → Type 0
Returned Q (ok a) = Q a
Returned Q (err e) = Unit

-- All that is sent satisfies `P`, and a result that is returned satisfies `Q`.
abbrev pub Sends : {A : Type 0} → (String → Type 0) → (A → Type 0) → Io A → Type 0
Sends P Q m = (sent : List String) → All P sent → All P (m sent).0 × Returned Q (m sent).1

after-Sends :
    {A B : Type 0} (P : String → Type 0) (Q : A → Type 0) (R : B → Type 0) (r : List String × Py A)
    (f : A → Io B)
    → All P r.0 × Returned Q r.1
    → ((a : A) → Q a → Sends P R (f a))
    → All P (after r f).0 × Returned R (after r f).1
after-Sends P Q R (sent, ok a) f h k = k a h.1 sent h.0
after-Sends P Q R (sent, err e) f h k = (h.0, tt)

pub Sends-bind :
    {A B : Type 0} (P : String → Type 0) (Q : A → Type 0) (R : B → Type 0) (m : Io A) (f : A → Io B)
    → Sends P Q m
    → ((a : A) → Q a → Sends P R (f a))
    → Sends P R (m >>= f)
Sends-bind P Q R m f h k sent all = after-Sends P Q R (m sent) f (h sent all) k

All-snoc :
    (P : String → Type 0) (sent : List String) (sql : String)
    → All P sent
    → P sql
    → All P (append sent (sql ∷ []))
All-snoc P [] sql h p = (p, tt)
All-snoc P (x ∷ sent) sql h p = (h.0, All-snoc P sent sql h.1 p)

-- What the server has answered to a statement, after some others.
abbrev pub Answered : {A : Type 0} → (List String → String → Py A) → String → A → Type 0
Answered answer sql a = (sent : List String) × (answer sent sql ≡ ok a)

answer-Answered :
    {A : Type 0} (answer : List String → String → Py A) (sent : List String) (sql : String)
    (r : Py A)
    → answer sent sql ≡ r
    → Returned (Answered answer sql) r
answer-Answered answer sent sql (ok a) e = (sent, e)
answer-Answered answer sent sql (err x) e = tt

-- A statement that satisfies `P`, whatever the answer.
pub Sends-send :
    {A : Type 0} (P : String → Type 0) (answer : List String → String → Py A) (sql : String)
    → P sql
    → Sends P (Answered answer sql) (send answer sql)
Sends-send P answer sql p sent all =
    (All-snoc P sent sql all p, answer-Answered answer sent sql (answer sent sql) refl)

pub Sends-lift :
    {A : Type 0} (P : String → Type 0) (Q : A → Type 0) (r : Py A)
    → Returned Q r
    → Sends P Q (lift r)
Sends-lift P Q r h sent all = (all, h)

length-map : {A B : Type 0} (f : A → B) (xs : List A) → length (map f xs) ≡ length xs
length-map f [] = refl
length-map f (x ∷ xs) = ap suc (length-map f xs)

length-take : {A : Type 0} (n : ℕ) (xs : List A) → length (take n xs) ≡ min n (length xs)
length-take zero xs = omega arith
length-take (suc n) [] = omega arith
length-take (suc n) (x ∷ xs) = omega (arith, length-take n xs)

preview-Previewed :
    (n : ℕ) (columns : List String) (fetched : List (List Cell))
    → (length (preview n columns fetched).rows ≤ n)
      × ((preview n columns fetched).truncated ≡ true → length (preview n columns fetched).rows ≡ n)
unfolding preview
preview-Previewed n columns fetched =
    let counted = length-map (row_of columns) (take n fetched) ∙ length-take n fetched in
    (omega (arith, counted), λ more. omega (tests, counted, more))

module _ (server : Server) (limits : Limits) (preview_rows : ℕ) (digest : String → ℕ → String)
    (format_sql : String → String) (statements : String → ℕ) where
  -- The statements of a run: the two settings, a table around a query that validation has let
  -- pass, the two measures of a table, and a query that validation has let pass.
  pub data Issued (sql : String) : Type 0 where
    read_only : sql ≡ read_only_sql → Issued sql
    timeout : sql ≡ timeout_sql limits.timeout_ms → Issued sql
    table :
        (name query : String)
        → IsReadOnly format_sql statements [] query
        → sql ≡ create_sql name query limits.max_rows
        → Issued sql
    count : (name : String) → sql ≡ count_sql name → Issued sql
    size : (name : String) → sql ≡ size_sql name → Issued sql
    final : IsReadOnly format_sql statements [] sql → Issued sql

  abbrev Valid : String → Type 0
  Valid query = IsReadOnly format_sql statements [] query

  Returned-Valid :
      (sql : String) (r : Py String)
      → validate_read_only format_sql statements [] sql ≡ r
      → Returned Valid r
  Returned-Valid sql (ok query) e =
      (validate_read_only-IsReadOnly format_sql statements [] sql query e).1
  Returned-Valid sql (err x) e = tt

  validated :
      (sql : String) → Sends Issued Valid (lift (validate_read_only format_sql statements [] sql))
  validated sql = Sends-lift Issued Valid _ (Returned-Valid sql _ refl)

  -- A table whose measures were read and are within the limits.
  abbrev pub Small : String → Type 0
  Small name =
      (rows : ℕ) × (bytes : ℕ) × Answered server.number (count_sql name) rows
      × Answered server.number (size_sql name) bytes
      × (rows ≤ limits.max_rows)
      × (bytes ≤ limits.max_bytes)

  within-le : (what : String) (n bound : ℕ) → Returned (λ _. n ≤ bound) (within what n bound)
  unfolding within
  within-le what n bound = elim (Bool-cases (ltb bound n)) [
    | inl over ↦ rw over tt
    | inr under ↦ rw under (ground arith)
  ]

  stage-Sends :
      (request_id : String) (index : ℕ) (names : List String) (sql : String)
      → Sends Issued Small (
          run_stage server limits preview_rows digest format_sql statements request_id index names
            sql)
  unfolding run_stage
  stage-Sends request_id index names sql =
      let name =
        table_name server limits preview_rows digest format_sql statements request_id index in
      Sends-bind Issued Valid Small _ _ (validated (expand 1 names sql)) λ query valid.
        let made = create_sql name query limits.max_rows in
        Sends-bind Issued (Answered server.execute made) Small (send server.execute made) _
          (Sends-send Issued server.execute made (table name query valid refl))
          λ u h.
            Sends-bind Issued (Answered server.number (count_sql name)) Small
              (send server.number (count_sql name)) _
              (Sends-send Issued server.number (count_sql name) (count name refl))
              λ rows counted.
                Sends-bind Issued (Answered server.number (size_sql name)) Small
                  (send server.number (size_sql name)) _
                  (Sends-send Issued server.number (size_sql name) (size name refl))
                  λ bytes measured.
                    Sends-bind Issued (λ _. rows ≤ limits.max_rows) Small
                      (lift (within "row" rows limits.max_rows)) _
                      (Sends-lift Issued (λ _. rows ≤ limits.max_rows)
                        (within "row" rows limits.max_rows) (within-le "row" rows limits.max_rows))
                      λ u few.
                        Sends-bind Issued (λ _. bytes ≤ limits.max_bytes) Small
                          (lift (within "byte" bytes limits.max_bytes)) (λ _. return name)
                          (Sends-lift Issued (λ _. bytes ≤ limits.max_bytes)
                            (within "byte" bytes limits.max_bytes)
                            (within-le "byte" bytes limits.max_bytes))
                          λ u short.
                            Sends-lift Issued Small (ok name)
                              (rows, bytes, counted, measured, few, short)

  stages-Sends :
      (request_id : String) (index : ℕ) (names sqls : List String)
      → All Small names
      → Sends Issued (All Small) (
          run_stages server limits preview_rows digest format_sql statements request_id index names
            sqls)
  unfolding run_stages
  stages-Sends request_id index names [] small = λ sent all. (all, small)
  stages-Sends request_id index names (sql ∷ sqls) small =
      Sends-bind Issued Small (All Small) _ _ (stage-Sends request_id index names sql) λ name h.
        stages-Sends request_id (index + 1) (append names (name ∷ [])) sqls
          (All-snoc Small names name small h)

  -- At most the previewed rows come back, and the flag says whether one more was fetched.
  abbrev pub Previewed : QueryResult → Type 0
  Previewed r = (length r.rows ≤ preview_rows) × (r.truncated ≡ true → length r.rows ≡ preview_rows)

  final-Sends :
      (names : List String) (sql : String)
      → Sends Issued Previewed
          (run_final server limits preview_rows digest format_sql statements names sql)
  unfolding run_final
  final-Sends names sql =
      Sends-bind Issued Valid Previewed _ _ (validated (expand 1 names sql)) λ query valid.
        Sends-bind Issued _ Previewed _ _
          (Sends-send Issued (λ sent sql. server.fetch sent sql (preview_rows + 1)) query
            (final valid))
          λ r h. λ sent all. (all, preview-Previewed preview_rows r.0 r.1)

  execute-Sends :
      (request_id : String) (sqls : List String) (sql : String)
      → Sends Issued Previewed (
          execute_scratch server limits preview_rows digest format_sql statements request_id sqls
            sql)
  unfolding execute_scratch
  execute-Sends request_id [] sql = λ sent all. (all, tt)
  execute-Sends request_id (s ∷ sqls) sql =
      Sends-bind Issued (Answered server.execute read_only_sql) Previewed
        (send server.execute read_only_sql) _
        (Sends-send Issued server.execute read_only_sql (read_only refl))
        λ u h.
          Sends-bind Issued (Answered server.execute (timeout_sql limits.timeout_ms)) Previewed
            (send server.execute (timeout_sql limits.timeout_ms)) _
            (Sends-send Issued server.execute (timeout_sql limits.timeout_ms) (timeout refl))
            λ u h.
              Sends-bind Issued (All Small) Previewed _ _
                (stages-Sends request_id 1 [] (s ∷ sqls) tt) λ names h. final-Sends names sql

  -- Whatever the server answers, a scratch run sends only the two settings, tables of at most one row
  -- more than the limit around queries that read-only validation has passed, the two measures of a
  -- table, and a final query that validation has passed; a result that it returns has at most the
  -- previewed number of rows, and as many where it says that it is cut.
  pub execute_scratch-Issued :
      (request_id : String) (sqls : List String) (sql : String)
      → All Issued
          (execute_scratch server limits preview_rows digest format_sql statements request_id sqls
            sql []).0
        × Returned Previewed
            (execute_scratch server limits preview_rows digest format_sql statements request_id sqls
              sql []).1
  execute_scratch-Issued request_id sqls sql = execute-Sends request_id sqls sql [] tt
