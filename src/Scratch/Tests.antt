-- ===== src/Scratch/Tests.antt =====
-- A run of a scratch plan against a small server.
use po_c_sqlagent.Base.{String, ◌≡◌, refl, [], ◌∷◌, All, ok}
use po_c_sqlagent.Python.{null}
use po_c_sqlagent.Database.{plain}
use po_c_sqlagent.Scratch.{Server, Limits, execute_scratch}
use po_c_sqlagent.Scratch.Issued.{Issued, Returned, Previewed, execute_scratch-Issued}

abbrev server : Server
server = record {
  execute = λ sent sql. ok tt;
  number = λ sent sql. ok 7;
  fetch = λ sent sql n. ok ("a" ∷ [], (plain null ∷ []) ∷ (plain null ∷ []) ∷ []);
}

abbrev limits : Limits
limits = record { max_rows = 10; max_bytes = 100; timeout_ms = 50 }

abbrev sent : String
sent = "SELECT * FROM pg_temp.\"sqlagent_1_f00\""

runs :
    (execute_scratch server limits 1
      (λ id n. "f00")
      (λ q. q)
      (λ q. 1)
      "r"
      ("SELECT 1;" ∷ [])
      "SELECT * FROM {{stage_1}}"
      []).0
    ≡ "SET default_transaction_read_only = on" ∷ "SET LOCAL statement_timeout = 50"
      ∷ "CREATE TEMP TABLE \"sqlagent_1_f00\" ON COMMIT DROP AS SELECT * FROM (SELECT 1) AS bounded_stage LIMIT 11"
      ∷ "SELECT count(*) FROM pg_temp.\"sqlagent_1_f00\""
      ∷ "SELECT pg_total_relation_size(oid) FROM pg_class WHERE oid = 'pg_temp.sqlagent_1_f00'::regclass"
      ∷ sent ∷ []
unfolding execute_scratch
runs = refl

execute_scratch-Issued_example :
    All
      (Issued server limits 1 (λ id n. "f00") (λ q. q) (λ q. 1))
      (execute_scratch server limits 1
        (λ id n. "f00")
        (λ q. q)
        (λ q. 1)
        "r"
        ("SELECT 1;" ∷ [])
        "SELECT * FROM {{stage_1}}"
        []).0
    × Returned
        (Previewed server limits 1 (λ id n. "f00") (λ q. q) (λ q. 1))
        (execute_scratch server limits 1
          (λ id n. "f00")
          (λ q. q)
          (λ q. 1)
          "r"
          ("SELECT 1;" ∷ [])
          "SELECT * FROM {{stage_1}}"
          []).1
execute_scratch-Issued_example =
    execute_scratch-Issued server limits 1 (λ id n. "f00") (λ q. q) (λ q. 1) "r" ("SELECT 1;" ∷ [])
      "SELECT * FROM {{stage_1}}"
