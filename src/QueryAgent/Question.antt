-- ===== src/QueryAgent/Question.antt =====
-- sqlagent/query_agent/graph.py: the tests on the question that no model answers.
use Prim.Native.Char.{code}
use Prim.Native.String as Text
use Prim.Native.String.{◌++◌}
use po_c_sqlagent.Base.{
  String, Bool, true, false, not, ◌&&◌, ◌||◌, ◌==◌, List, [], ◌∷◌, any, select, if◌then◌else◌,
}
use po_c_sqlagent.Text.{contains, contains_any, contains_word, lower, join}

abbrev pub ambiguity_terms : List String
ambiguity_terms =
    "как дела" ∷ "показател" ∷ "эффектив" ∷ "успеш" ∷ "результат" ∷ "ситуац" ∷ "performance"
    ∷ "overall" ∷ []

abbrev pub choice_terms : List String
choice_terms = "что важнее" ∷ "что показать" ∷ "главн" ∷ []

abbrev pub meta_question_terms : List String
meta_question_terms = "таблиц" ∷ "колонк" ∷ "table" ∷ "column" ∷ "schema" ∷ "схема" ∷ "каталог" ∷ []

-- The query reads catalog metadata while the question asks about business data.
unfoldable pub metadata_drift : String → String → Bool
unfolding contains_word contains_any lower
metadata_drift question sql =
    (contains_word "information_schema" (lower sql) || contains_word "pg_catalog" (lower sql))
    && not (contains_any meta_question_terms (lower question))

-- `name.split("_")`.
split_under : String → String → List String
split_under part Text.[] = part ∷ []
split_under part (Text.◌∷◌ c s) =
    if code c == 95 then part ∷ split_under "" s else split_under (part ++ Text.◌∷◌ c "") s

abbrev longer_than_three : String → Bool
longer_than_three (Text.◌∷◌ a (Text.◌∷◌ b (Text.◌∷◌ c (Text.◌∷◌ d s)))) = true
longer_than_three _ = false

-- A metric is named where a part of its name of more than three letters stands in the question.
unfoldable pub is_named : String → String → Bool
unfolding split_under any contains lower
is_named normalized metric =
    any (λ part. longer_than_three part && contains part normalized) (split_under "" (lower metric))

pub record Ambiguity : Type 0 where
  pub is_ambiguous : Bool
  pub possible_metrics : List String

abbrev none_of : List String → Bool
none_of [] = true
none_of (x ∷ xs) = false

unfoldable pub detect_ambiguity : String → List String → Ambiguity
unfolding is_named contains_any lower select
detect_ambiguity question metrics =
    let normalized = lower question in
    let explicit = select (is_named normalized) metrics in
    let ambiguous =
      contains_any ambiguity_terms normalized
      || (none_of explicit && contains_any choice_terms normalized) in
    record { is_ambiguous = ambiguous; possible_metrics = if ambiguous then metrics else explicit }

unfoldable pub clarification_prompt : Ambiguity → String
unfolding join
clarification_prompt a =
    "Уточните, какую метрику посчитать: "
    ++ ((if none_of a.possible_metrics then "уточните метрику" else join ", " a.possible_metrics)
        ++ ".")
