-- ===== src/Client/Provider.antt =====
-- sqlagent/llm.py: OpenCodeGoClient, the client of an OpenAI-compatible provider. The text that
-- _http_error makes of a refusal, with the secrets in it redacted, is part of the reply.
use Prim.Native.String.{◌++◌}
use po_c_sqlagent.Base.{
  ℕ, String, Bool, Option, none, some, List, [], ◌∷◌, ok, err, ◌>>=◌, ◌>>◌, ◌&&◌, leb, ltb,
  if◌then◌else◌,
}
use po_c_sqlagent.Text.{◌=ₛ◌, is_space, strip}
use po_c_sqlagent.Python.{
  Value, str, list, dict, nil, cons, Fields, end, Error, value_error, key_error, type_error,
  llm_unavailable, Py, get, get_default, either, truthy,
}
use po_c_sqlagent.Client.Schema.{validate_schema}
use po_c_sqlagent.Client.Chat.{
  Json, parse_json, Attempt, again, refused, judged, CacheFile, Disk, Call, fields?, cached_chat,
}

-- What a request to the provider comes to: a status that is an error, with its text; another
-- httpx.HTTPError; another exception, also of an answer that is no JSON; or an answer.
pub data ProviderReply : Type 0 where
  http_status : (code : ℕ) (message : String) → ProviderReply
  transport_error : String → ProviderReply
  provider_raised : Error → ProviderReply
  provider_answered : Value → ProviderReply

-- `choices[0]`, where `choices` is true.
unfoldable pub first_choice : Value → Py Value
first_choice (list (cons v vs)) = ok v
first_choice (str (String.◌∷◌ c s)) = ok (str (String.◌∷◌ c ""))
first_choice (dict fs) = err key_error
first_choice _ = err type_error

abbrev pub finish_reason : Value → Py (Unit {0})
finish_reason choices =
    if truthy choices
    then (first_choice choices >>= λ choice. fields? choice >>= λ fs. ok tt)
    else ok tt

-- What _usage reads of an answer that is JSON.
unfoldable pub usage_of : Fields → Py (Unit {0})
unfolding either get truthy first_choice
usage_of body = do
  usage ← fields? (either (get "usage" body) (dict end))
  finish_reason (either (get "choices" body) (list nil))

-- `isinstance(v, str) and v.strip()`.
unfoldable pub filled : Value → Option String
unfolding strip is_space
filled (str s) = if strip is_space s =ₛ "" then none else some s
filled v = none

abbrev pub no_choices : Error
no_choices = value_error "LLM provider response did not contain choices"

abbrev pub no_content : Error
no_content = value_error "LLM provider response did not contain message content"

-- The first of the texts that is there.
abbrev pub first_text : List (Option String) → Py String
first_text [] = err no_content
first_text (some s ∷ texts) = ok s
first_text (none ∷ texts) = first_text texts

unfoldable pub message_text : Value → Py String
unfolding filled get get_default either
message_text (dict message) = first_text (
    filled (get_default "content" (str "") message)
    ∷ filled (either (get "reasoning_content" message) (str ""))
    ∷ filled (either (get "reasoning" message) (str ""))
    ∷ [])
message_text message = err no_content

abbrev pub choice_text : Value → Py String
choice_text (dict choice) = message_text (get_default "message" (dict end) choice)
choice_text choice = err no_choices

unfoldable pub provider_content : Fields → Py String
unfolding get_default truthy first_choice message_text
provider_content body =
    let choices = get_default "choices" (list nil) body in
    if truthy choices then (first_choice choices >>= choice_text) else err no_choices

unfoldable pub provider_answer : Json → Value → Value → Py Value
unfolding usage_of provider_content parse_json validate_schema
provider_answer json schema body = do
  fs ← fields? body
  usage_of fs
  content ← provider_content fs
  result ← parse_json json content
  validate_schema result schema "$"
  ok result

abbrev pub client_error : ℕ → Bool
client_error code = leb 400 code && ltb code 500

-- A status of 400 to 499 is the last attempt.
abbrev pub provider_attempt : Json → Value → ProviderReply → Attempt
provider_attempt json schema (http_status code m) = if client_error code then refused m else again m
provider_attempt json schema (transport_error m) = again m
provider_attempt json schema (provider_raised e) = judged (err e)
provider_attempt json schema (provider_answered body) = judged (provider_answer json schema body)

-- The label of the provider, the variable that its key is in, the key and the model.
pub record Provider : Type 0 where
  pub label : String
  pub key_variable : String
  pub api_key : String
  pub model : String

abbrev pub without_key : String → CacheFile → Call
without_key key_variable cache = record {
  posts = 0;
  events = "error" ∷ [];
  cache = cache;
  result = err (llm_unavailable (key_variable ++ " is not configured"));
}

unfoldable pub provider_json :
    Provider → Json → Disk → (ℕ → ProviderReply) → Value → ℕ → CacheFile → Call
unfolding cached_chat provider_answer strip is_space
provider_json p json disk post schema retries cache =
    if strip is_space p.api_key =ₛ ""
    then without_key p.key_variable cache
    else cached_chat disk p.label p.model (λ i. provider_attempt json schema (post i)) retries cache
