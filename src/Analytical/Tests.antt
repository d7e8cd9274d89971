-- ===== src/Analytical/Tests.antt =====
-- The compiler of analytical plans, and the run of a scratch plan, at concrete inputs.
use po_c_sqlagent.Base.{
  err, ℕ, String, Bool, ◌≡◌, refl, true, false, List, [], ◌∷◌, ok, ltb, arith, tests, ◌<◌, length,
}
use po_c_sqlagent.Python.{
  Float, Whole, whole, nan, infinite, negsuc, Py, type_error, Value, str, list, dict, nil, cons,
  Fields, end, field, int, pos, null, bool, get,
}
use po_c_sqlagent.Composer.{Schema}
use po_c_sqlagent.Analytical.{
  compile, CompiledPlan, compile_scratch, no_cardinality, Checked, Pricing, cost_of, least,
  select_analytical_candidate,
}
use po_c_sqlagent.Analytical.Floats.{PlainFields}
use po_c_sqlagent.Analytical.Scoped.Chain.{IsScoped, compile-IsScoped}
use po_c_sqlagent.Analytical.Grains.{Within}
use po_c_sqlagent.Analytical.Grains.Plan.{compile-Within, stages_of}
use po_c_sqlagent.Analytical.Choice.{IsStrict, IsOrder, IsChosen, Answers, select-IsChosen}
use po_c_sqlagent.Analytical.Setup.{compile_scratch-Setup}

abbrev shop : Schema
shop = ("orders", "id" ∷ "client" ∷ "amount" ∷ []) ∷ ("clients", "client_id" ∷ "city" ∷ []) ∷ []

abbrev pair : Value → Value → Value
pair a b = list (cons a (cons b nil))

abbrev scan : String → String → Value
scan id table = dict (
    field "id" (str id) (
      field "type" (str "scan")
        (field "table" (str table) (field "grain" (list (cons (str "id") nil)) end))))

abbrev half : Value
half = dict (
    field "binary"
      (dict (
        field "op" (str "/") (
          field "left" (str "amount")
            (field "right" (dict (field "literal" (int (pos 2)) end)) end))))
      end)

abbrev derive : Bool → String → Value
derive keep id = dict (
    field "id" (str id) (
      field "type" (str "project") (
        field "input" (str "o") (
          field "keep" (bool keep) (
            field "expressions"
              (list (cons (dict (field "alias" (str "half") (field "expr" half end))) nil)) end)))))

abbrev two_stages : Value → Value → Fields
two_stages a b = field "stages" (pair a b) end

abbrev plan : Fields
plan = two_stages (scan "o" "orders") (derive true "d")

abbrev small_plan : CompiledPlan
small_plan = record {
  sql =
      "WITH \"o\" AS (SELECT \"amount\", \"client\", \"id\" FROM \"orders\"),\n\"d\" AS (SELECT *, (\"amount\" / NULLIF(2, 0)) AS \"half\" FROM \"o\")\nSELECT * FROM \"d\"";
  output_columns = "amount" ∷ "client" ∷ "half" ∷ "id" ∷ [];
  grain = "id" ∷ [];
  stages = "o" ∷ "d" ∷ [];
}

plan_compiles : compile shop no_cardinality plan ≡ ok small_plan
unfolding compile
plan_compiles = refl

plan_plain : PlainFields plan
unfolding PlainFields
plan_plain = omega arith

compile-IsScoped_example : IsScoped shop (stages_of (get "stages" plan)) small_plan
compile-IsScoped_example =
    compile-IsScoped shop no_cardinality plan small_plan plan_plain plan_compiles

compile-Within_example : Within ("id" ∷ []) ("amount" ∷ "client" ∷ "half" ∷ "id" ∷ [])
unfolding compile get
compile-Within_example =
    compile-Within shop no_cardinality plan small_plan (refl, (refl, tt)) plan_compiles

-- A projection that drops the columns of its input still reports their grain.
grain_lost :
    compile shop no_cardinality (two_stages (scan "o" "orders") (derive false "d"))
    ≡ ok (record {
      sql =
          "WITH \"o\" AS (SELECT \"amount\", \"client\", \"id\" FROM \"orders\"),\n\"d\" AS (SELECT (\"amount\" / NULLIF(2, 0)) AS \"half\" FROM \"o\")\nSELECT * FROM \"d\"";
      output_columns = "half" ∷ [];
      grain = "id" ∷ [];
      stages = "o" ∷ "d" ∷ [];
    })
unfolding compile
grain_lost = refl

-- Two stages of one id make two CTEs of one name.
id_twice :
    compile shop no_cardinality (two_stages (scan "o" "orders") (scan "o" "orders"))
    ≡ ok (record {
      sql =
          "WITH \"o\" AS (SELECT \"amount\", \"client\", \"id\" FROM \"orders\"),\n\"o\" AS (SELECT \"amount\", \"client\", \"id\" FROM \"orders\")\nSELECT * FROM \"o\"";
      output_columns = "amount" ∷ "client" ∷ "id" ∷ [];
      grain = "id" ∷ [];
      stages = "o" ∷ [];
    })
unfolding compile
id_twice = refl

-- A scan of a table whose name an earlier stage has reads that stage.
table_shadowed :
    compile_scratch shop no_cardinality
      (two_stages (scan "orders" "orders") (scan "again" "orders"))
    ≡ ok (
      "SELECT \"amount\", \"client\", \"id\" FROM \"orders\"" ∷ [],
      "SELECT \"amount\", \"client\", \"id\" FROM {{stage_1}}",
    )
unfolding compile_scratch
table_shadowed = refl

plan_sets_up :
    compile_scratch shop no_cardinality plan
    ≡ ok (
      "SELECT \"amount\", \"client\", \"id\" FROM \"orders\"" ∷ [],
      "SELECT *, (\"amount\" / NULLIF(2, 0)) AS \"half\" FROM {{stage_1}}",
    )
unfolding compile_scratch
plan_sets_up = refl

compile_scratch-Setup_example :
    (0 < 1) × (1 < length (stages_of (pair (scan "o" "orders") (derive true "d"))))
unfolding get
compile_scratch-Setup_example =
    compile_scratch-Setup shop no_cardinality plan
      ("SELECT \"amount\", \"client\", \"id\" FROM \"orders\"" ∷ [])
      "SELECT *, (\"amount\" / NULLIF(2, 0)) AS \"half\" FROM {{stage_1}}" plan_sets_up

abbrev rank : Whole → ℕ
rank (whole (pos n)) = n
rank (whole (negsuc n)) = 0
rank nan = 0
rank infinite = 1000000

abbrev less : Float → Float → Bool
less a b = ltb (rank a.as_int) (rank b.as_int)

less-IsStrict : IsStrict less
less-IsStrict = record { asym = λ a b h. ground arith; trans = λ a b c h k. omega tests }

abbrev to_float : Value → Py Float
to_float (int n) = ok (record { text = ""; nonzero = true; as_int = whole n })
to_float v = err type_error

abbrev floats : Pricing
floats = record {
  to_float = to_float;
  infinity = record { text = "inf"; nonzero = true; as_int = infinite };
  less = less;
}

abbrev report : ℕ → Value
report n = dict (field "total_cost" (int (pos n)) end)

-- A cost of zero counts as infinite: the dearer plan is taken.
zero_loses :
    least floats (
      (record { text = "inf"; nonzero = true; as_int = infinite }, (plan, small_plan, report 0))
      ∷ (record { text = ""; nonzero = true; as_int = whole (pos 3) }, (plan, small_plan, report 3))
      ∷ [])
    ≡ ok (plan, small_plan, report 3)
unfolding least
zero_loses = refl

zero_is_infinite : cost_of floats (report 0) ≡ ok floats.infinity
unfolding cost_of
zero_is_infinite = refl

forwards-IsOrder : IsOrder (λ cs. cs)
forwards-IsOrder = record { kept = λ cs k h. h; only = λ cs k h. h }

abbrev chosen : Checked
chosen = (plan, small_plan, report 3)

chosen_lem :
    select_analytical_candidate shop
      (ok (dict plan))
      (ok null)
      floats
      (λ cs. cs)
      (λ sql. ok (report 3))
    ≡ ok chosen
unfolding select_analytical_candidate
chosen_lem = refl

select-IsChosen_example :
    (vs : List Value) × Answers (ok (dict plan)) (ok null) vs
    × IsChosen shop vs floats (λ sql. ok (report 3)) chosen
select-IsChosen_example =
    select-IsChosen shop (ok (dict plan)) (ok null) floats (λ cs. cs) (λ sql. ok (report 3)) chosen
      less-IsStrict forwards-IsOrder chosen_lem
