-- ===== src/Analytical/Candidates.antt =====
-- sqlagent/analytical.py: select_analytical_candidate. The two model calls and the EXPLAIN calls run
-- in threads; what they come to is a parameter, and so is the order in which the EXPLAIN calls end.
use po_c_sqlagent.Base.{String, Bool, List, [], ◌∷◌, ok, err, ◌>>=◌, if◌then◌else◌}
use po_c_sqlagent.Python.{Value, Float, dict, Fields, value_error, attribute_error, Py, truthy, get}
use po_c_sqlagent.Composer.{Schema}
use po_c_sqlagent.Analytical.Terms.{plan_error}
use po_c_sqlagent.Analytical.Plan.{CompiledPlan, compile_analytical_plan}

-- A proposal with its plan, and with the report of EXPLAIN.
abbrev pub Candidate : Type 0
Candidate = Fields × CompiledPlan

abbrev pub Checked : Type 0
Checked = Fields × CompiledPlan × Value

-- `except AnalyticalPlanError: continue`; any other exception passes.
unfoldable pub keep_compiled : Fields → Py CompiledPlan → Py (List Candidate) → Py (List Candidate)
keep_compiled plan (ok c) rest = do more ← rest; ok ((plan, c) ∷ more)
keep_compiled plan (err (value_error m)) rest = rest
keep_compiled plan (err e) rest = err e

-- The proposals that are objects with stages and that compile.
unfoldable pub compiled_proposals : Schema → List Value → Py (List Candidate)
unfolding keep_compiled compile_analytical_plan truthy get
compiled_proposals schema [] = ok []
compiled_proposals schema (dict plan ∷ vs) =
    let rest = compiled_proposals schema vs in
    if truthy (get "stages" plan)
    then keep_compiled plan (compile_analytical_plan schema plan) rest
    else rest
compiled_proposals schema (v ∷ vs) = compiled_proposals schema vs

-- `except Exception: continue`.
unfoldable pub keep_checked : Candidate → Py Value → List Checked → List Checked
keep_checked (plan, c) (ok report) rest = (plan, c, report) ∷ rest
keep_checked c (err e) rest = rest

-- The reports, in the order in which the calls end.
unfoldable pub explained : (String → Py Value) → List Candidate → List Checked
unfolding keep_checked
explained explain [] = []
explained explain ((plan, c) ∷ cs) = keep_checked (plan, c) (explain c.sql) (explained explain cs)

-- What Python's float type gives for the costs: `float(v)` with its exceptions, `math.inf`, and `<`.
pub record Pricing : Type 0 where
  pub to_float : Value → Py Float
  pub infinity : Float
  pub less : Float → Float → Bool

-- The key of a report, `float(report.get("total_cost") or math.inf)`.
unfoldable pub cost_of : Pricing → Value → Py Float
unfolding truthy get
cost_of floats (dict report) =
    let cost = get "total_cost" report in
    if truthy cost then floats.to_float cost else ok floats.infinity
cost_of floats report = err attribute_error

abbrev pub Priced : Type 0
Priced = Float × Checked

-- `min` computes all keys; the first exception passes.
unfoldable pub priced : Pricing → List Checked → Py (List Priced)
unfolding cost_of
priced floats [] = ok []
priced floats (c ∷ cs) = do
  cost ← cost_of floats c.2
  more ← priced floats cs
  ok ((cost, c) ∷ more)

-- The first of those with the lowest key.
unfoldable pub cheapest : (Float → Float → Bool) → Priced → List Priced → Priced
cheapest less best [] = best
cheapest less best (c ∷ cs) = cheapest less (if less c.0 best.0 then c else best) cs

unfoldable pub least : Pricing → List Priced → Py Checked
unfolding cheapest
least floats [] = err (plan_error "all analytical DAG candidates failed EXPLAIN")
least floats (c ∷ cs) = ok (cheapest floats.less c cs).1

unfoldable pub choose :
    Pricing → (List Candidate → List Candidate) → (String → Py Value) → List Candidate → Py Checked
unfolding priced least explained
choose floats finished explain [] = err (plan_error "no valid analytical DAG candidate")
choose floats finished explain (c ∷ cs) =
    priced floats (explained explain (finished (c ∷ cs))) >>= least floats

-- `propose` gives the answers of the model to the two prompts; the first exception passes.
unfoldable pub select_analytical_candidate :
    Schema
    → (first second : Py Value) → Pricing
    → (List Candidate → List Candidate)
    → (String → Py Value)
    → Py Checked
unfolding compiled_proposals choose
select_analytical_candidate schema first second floats finished explain = do
  a ← first
  b ← second
  compiled ← compiled_proposals schema (a ∷ b ∷ [])
  choose floats finished explain compiled
