-- ===== src/Client/Tests.antt =====
-- Answers of a model at concrete inputs.
use po_c_sqlagent.Base.{
  if◌then◌else◌, ◌≢◌, ℕ, zero, suc, ◌<◌, String, true, false, ◌≡◌, refl, ◌⊎◌, some, none, ok, err,
  arith,
}
use po_c_sqlagent.Text.{◌=ₛ◌, strip, is_space}
use po_c_sqlagent.Python.{
  Value, null, bool, int, pos, str, list, dict, nil, cons, Fields, end, field, value_error,
  attribute_error,
}
use po_c_sqlagent.Client.{
  validate_schema, Json, parse_json, Reply, http_error, answered, attempt_of, again, done, missing,
  Disk, chat_json, ProviderReply, http_status, provider_json, provider_attempt, gave_up,
  provider_answer,
}
use po_c_sqlagent.Client.Provider.{Provider}
use po_c_sqlagent.Client.Refused.{Unsent, provider_json-Within, provider_json-refused}
use po_c_sqlagent.Client.Conforms.{Conforms, validate_schema-Conforms}
use po_c_sqlagent.Client.Answered.{Hit, Within, Decided, chat_json-Within, chat_json-Decided}

abbrev typed : String → Fields → Value
typed t fs = dict (field "type" (str t) fs)

-- {"type": "object", "required": ["a"], "properties": {"a": {"type": "array", "items": {"type": "integer"}}}}
abbrev schema : Value
schema = typed "object" (
    field "required" (list (cons (str "a") nil)) (
      field "properties"
        (dict (field "a" (typed "array" (field "items" (typed "integer" end) end)) end)) end))

abbrev numbers : Value
numbers = dict (field "a" (list (cons (int (pos 1)) (cons (int (pos 2)) nil))) end)

numbers_fit : validate_schema numbers schema "$" ≡ ok tt
unfolding validate_schema
numbers_fit = refl

bool_is_no_integer :
    validate_schema
      (dict (field "a" (list (cons (int (pos 1)) (cons (bool true) nil))) end))
      schema
      "$"
    ≡ err (value_error "LLM schema violation at $.a[1]: expected integer")
unfolding validate_schema
bool_is_no_integer = refl

key_missing :
    validate_schema (dict end) schema "$" ≡ err (value_error "LLM schema violation at $: missing a")
unfolding validate_schema
key_missing = refl

validate_schema-Conforms_example : Conforms schema numbers
validate_schema-Conforms_example = validate_schema-Conforms numbers schema "$" numbers_fit

abbrev json : Json
json = record {
  loads = λ s. if s =ₛ "{\"a\": [1, 2]}" then some numbers else none;
  raw_decode = λ s. if s =ₛ "{\"a\": [1, 2]}, as you asked" then some numbers else none;
}

fenced : parse_json json "```JSON\n{\"a\": [1, 2]}\n```\n" ≡ ok numbers
unfolding parse_json
fenced = refl

in_prose : parse_json json "The {answer}: {\"a\": [1, 2]}, as you asked" ≡ ok numbers
unfolding parse_json
in_prose = refl

abbrev says : Value → Reply
says content = answered (dict (field "message" (dict (field "content" content end)) end))

-- The first request is refused, the second answer is no JSON, the third one fits.
abbrev post : ℕ → Reply
post zero = http_error "503"
post (suc zero) = says (str "no idea")
post (suc (suc i)) = says (str "{\"a\": [1, 2]}")

abbrev disk : Disk
disk = record { writes_allowed = true; removes = true; saves = true }

-- An answer whose content is null stops the call with another exception, at the first attempt.
null_content :
    (chat_json json disk "m" (λ i. says null) schema 2 missing).result ≡ err attribute_error
unfolding chat_json
null_content = refl

chat_json-Within_example :
    Hit missing (chat_json json disk "m" post schema 2 missing)
    ⊎ Within disk schema 1 3 (chat_json json disk "m" post schema 2 missing)
chat_json-Within_example = chat_json-Within json disk "m" post schema 2 missing

first_fails : (j : ℕ) → j < 2 → (m : String) × (attempt_of json schema (post j) ≡ again m)
unfolding chat_json
first_fails zero less = ("503", refl)
first_fails (suc zero) less = ("no JSON object found in LLM response", refl)
first_fails (suc (suc j)) less = absurd (omega arith)

third_fits : attempt_of json schema (post 2) ≡ done numbers
unfolding chat_json
third_fits = refl

chat_json-Decided_example :
    Decided "Ollama" "m"
      (attempt_of json schema (post 2))
      3
      (chat_json json disk "m" post schema 2 missing)
chat_json-Decided_example =
    chat_json-Decided json disk "m" post schema 2 2 missing refl (omega arith) first_fails

abbrev provider : Provider
provider = record {
  label = "OpenCode Go";
  key_variable = "OPENCODE_GO_API_KEY";
  api_key = " k ";
  model = "m";
}

-- A model that leaves the content empty and answers in its reasoning.
reasoning_is_read :
    provider_answer json schema (
      dict (
        field "choices"
          (list (
            cons
              (dict (
                field "message"
                  (dict (field "content" (str " ") (field "reasoning" (str "{\"a\": [1, 2]}") end)))
                  end))
              nil))
          end))
    ≡ ok numbers
unfolding provider_answer
reasoning_is_read = refl

-- The provider is busy, then refuses the key.
abbrev provider_post : ℕ → ProviderReply
provider_post zero = http_status 503 "busy"
provider_post (suc i) = http_status 401 "no such key"

provider_json-Within_example :
    ((strip is_space " k " ≡ "")
      × Unsent "OPENCODE_GO_API_KEY" missing
          (provider_json provider json disk provider_post schema 2 missing))
    ⊎ ((strip is_space " k " ≢ "")
        × (Hit missing (provider_json provider json disk provider_post schema 2 missing)
            ⊎ Within disk schema 1 3
                (provider_json provider json disk provider_post schema 2 missing)))
provider_json-Within_example =
    provider_json-Within provider json disk provider_post schema 2 missing

busy_first :
    (j : ℕ) → j < 1 → (m : String) × (provider_attempt json schema (provider_post j) ≡ again m)
busy_first zero less = ("busy", refl)
busy_first (suc j) less = absurd (omega arith)

key_is_there : (strip is_space provider.api_key =ₛ "") ≡ false
unfolding strip is_space
key_is_there = refl

provider_json-refused_example :
    ((provider_json provider json disk provider_post schema 2 missing).result
      ≡ err (gave_up "OpenCode Go" "m" "no such key"))
    × ((provider_json provider json disk provider_post schema 2 missing).posts ≡ 2)
provider_json-refused_example =
    provider_json-refused provider json disk provider_post schema 1 2 missing 401 "no such key"
      key_is_there refl (omega arith) busy_first refl (omega arith) (omega arith)
