-- ===== src/Client/Chat.antt =====
-- sqlagent/llm.py: the answer of a model as JSON, with the cache and the retries of chat_json. What
-- json.loads and raw_decode make of a text, the answers of the server and the disk are arguments; the
-- limiter and the spans are left out.
use Prim.Native.String.{◌++◌}
use po_c_sqlagent.Base.{
  ℕ, zero, suc, ◌-◌, String, Bool, List, [], ◌∷◌, Option, none, some, ok, err, ◌>>=◌, ◌>>◌, ◌&&◌,
  if◌then◌else◌,
}
use po_c_sqlagent.Text.{
  ◌=ₛ◌, is_space, strip, lstrip, rstrip, ends_with, starts_with, lower, after_prefix, text_length,
  truncate,
}
use po_c_sqlagent.Python.{
  Value, str, dict, Fields, end, Error, value_error, llm_unavailable, attribute_error, key_error,
  Py, get_default, repr_str,
}
use po_c_sqlagent.Client.Schema.{validate_schema}

-- The JSON library: a whole text, and the value that a text begins with.
pub record Json : Type 0 where
  pub loads : String → Option Value
  pub raw_decode : String → Option Value

abbrev pub keep_object : Option Value → Py Value → Py Value
keep_object (some (dict fs)) later = ok (dict fs)
keep_object _ later = later

-- The scan over the places of a "{"; a value that is no object is passed over.
unfoldable pub extract_embedded_json : Json → String → Py Value
unfolding starts_with
extract_embedded_json json String.[] = err (value_error "no JSON object found in LLM response")
extract_embedded_json json (String.◌∷◌ c s) =
    let later = extract_embedded_json json s in
    if starts_with (String.◌∷◌ c s) "{"
    then keep_object (json.raw_decode (String.◌∷◌ c s)) later
    else later

unfoldable pub skip : ℕ → String → String
skip zero s = s
skip (suc n) String.[] = String.[]
skip (suc n) (String.◌∷◌ c s) = skip n s

abbrev pub after_fence : String → Option String → String
after_fence s none = s
after_fence s (some rest) =
    lstrip is_space (if lower (truncate 4 rest) =ₛ "json" then skip 4 rest else rest)

-- The two alternatives of the pattern of the fences, at the start and at the end.
unfoldable pub open_fence : String → String
unfolding after_prefix lstrip lower truncate skip is_space
open_fence s = after_fence s (after_prefix "```" s)

unfoldable pub close_fence : String → String
unfolding ends_with rstrip truncate text_length is_space
close_fence s = if ends_with s "```" then rstrip is_space (truncate (text_length s - 3) s) else s

abbrev pub parsed : Json → String → Option Value → Py Value
parsed json cleaned (some v) = ok v
parsed json cleaned none = extract_embedded_json json cleaned

abbrev pub object_only : Value → Py Value
object_only (dict fs) = ok (dict fs)
object_only v = err (value_error "LLM JSON response must be an object")

unfoldable pub parse_json : Json → String → Py Value
unfolding open_fence close_fence strip is_space extract_embedded_json
parse_json json content =
    let cleaned = close_fence (open_fence (strip is_space content)) in
    parsed json cleaned (json.loads cleaned) >>= object_only

-- What a request to the server comes to: an httpx.HTTPError, an answer that is JSON, or another
-- exception, also of an answer that is no JSON.
pub data Reply : Type 0 where
  http_error : String → Reply
  raised : Error → Reply
  answered : Value → Reply

abbrev pub fields? : Value → Py Fields
fields? (dict fs) = ok fs
fields? v = err attribute_error

-- `content.strip()` needs a text.
abbrev pub text? : Value → Py String
text? (str s) = ok s
text? v = err attribute_error

-- `body.get("message", {}).get("content", "")`.
unfoldable pub content_of : Value → Py String
unfolding get_default
content_of body = do
  fs ← fields? body
  message ← fields? (get_default "message" (dict end) fs)
  text? (get_default "content" (str "") message)

unfoldable pub checked_answer : Json → Value → Value → Py Value
unfolding content_of parse_json validate_schema
checked_answer json schema body = do
  content ← content_of body
  result ← parse_json json content
  validate_schema result schema "$"
  ok result

-- One attempt: done, to be tried again, the last one, or an exception that is not caught.
pub data Attempt : Type 0 where
  done : Value → Attempt
  again : String → Attempt
  refused : String → Attempt
  stopped : Error → Attempt

-- `except (httpx.HTTPError, ValueError, KeyError)`. The text of a KeyError is left out.
abbrev pub judged : Py Value → Attempt
judged (ok v) = done v
judged (err (value_error m)) = again m
judged (err key_error) = again "KeyError"
judged (err e) = stopped e

abbrev pub attempt_of : Json → Value → Reply → Attempt
attempt_of json schema (http_error m) = again m
attempt_of json schema (raised e) = judged (err e)
attempt_of json schema (answered body) = judged (checked_answer json schema body)

-- The file of a request in the cache. A client without a cache has none and may write none.
pub data CacheFile : Type 0 where
  missing unreadable : CacheFile
  holds : Value → CacheFile

-- Whether the cache may be written, and whether the disk lets a file be removed and saved.
pub record Disk : Type 0 where
  pub writes_allowed : Bool
  pub removes : Bool
  pub saves : Bool

-- What a call leaves: the number of requests, the events, the cache and the result.
pub record Call : Type 0 where
  pub posts : ℕ
  pub events : List String
  pub cache : CacheFile
  pub result : Py Value

abbrev pub write_cached : Disk → CacheFile → Value → CacheFile
write_cached disk cache v = if disk.writes_allowed && disk.saves then holds v else cache

-- An event of the call before the others.
abbrev pub emit : String → Call → Call
emit event chat = record chat { events = event ∷ chat.events }

abbrev pub drop_invalid : Disk → CacheFile → CacheFile
drop_invalid disk cache = if disk.writes_allowed && disk.removes then missing else cache

abbrev pub saved_events : Disk → List String
saved_events disk =
    if disk.writes_allowed
    then (if disk.saves then "response" ∷ [] else "cache_write_failed" ∷ "response" ∷ [])
    else "response" ∷ []

-- After one attempt: `posts` counts it, `last` gives up with its error, and `next` goes on.
abbrev pub after_attempt : Disk → ℕ → CacheFile → Attempt → (last next : String → Call) → Call
after_attempt disk posts cache (done v) last next = record {
  posts = posts;
  events = saved_events disk;
  cache = write_cached disk cache v;
  result = ok v;
}
after_attempt disk posts cache (again m) last next = next m
after_attempt disk posts cache (refused m) last next = last m
after_attempt disk posts cache (stopped e) last next = record {
  posts = posts;
  events = [];
  cache = cache;
  result = err e;
}

abbrev pub gave_up : (label model error : String) → Error
gave_up label model error =
    llm_unavailable
      (label ++ (" model " ++ (repr_str model ++ (" did not return JSON: " ++ error))))

abbrev pub ended : (label model : String) → ℕ → CacheFile → String → Call
ended label model posts cache error = record {
  posts = posts;
  events = "error" ∷ [];
  cache = cache;
  result = err (gave_up label model error);
}

-- What the clients of the two kinds of providers share; `attempt` is what an attempt comes to.
module _ (disk : Disk) (label model : String) (attempt : ℕ → Attempt) where
  -- The attempts that are left, after `posts` requests.
  unfoldable pub chat_loop : (attempts posts : ℕ) (error : String) → CacheFile → Call
  unfolding repr_str
  chat_loop zero posts error cache = ended label model posts cache error
  chat_loop (suc n) posts error cache =
      after_attempt disk (suc posts) cache (attempt posts) (ended label model (suc posts) cache)
        λ m. chat_loop n (suc posts) m cache

  abbrev pub requested : ℕ → CacheFile → Call
  requested retries cache = emit "request_started" (chat_loop (suc retries) 0 "" cache)

  unfoldable pub cached_chat : ℕ → CacheFile → Call
  unfolding chat_loop
  cached_chat retries missing = requested retries missing
  cached_chat retries (holds (dict fs)) = record {
    posts = 0;
    events = "response_cached" ∷ [];
    cache = holds (dict fs);
    result = ok (dict fs);
  }
  cached_chat retries cache = emit "cache_invalid" (requested retries (drop_invalid disk cache))

unfoldable pub chat_json : Json → Disk → String → (ℕ → Reply) → Value → ℕ → CacheFile → Call
unfolding cached_chat checked_answer
chat_json json disk model post schema =
    cached_chat disk "Ollama" model (λ i. attempt_of json schema (post i))
