-- ===== src/Client/Refused.antt =====
-- sqlagent/llm.py: what chat_json of OpenCodeGoClient returns, and when it stops to try.
use Prim.Native.String.{◌++◌}
use text.Mathlib.TextEquality.{eq_iff}
use po_c_sqlagent.Base.{
  ℕ, suc, ◌≤◌, ◌<◌, String, Bool, true, false, ◌≡◌, ◌≢◌, refl, sym, subst, ◌⊎◌, inl, inr, ok, err,
  arith, >>=-eq-ok, ok-injective, Bool-cases, if◌then◌else◌,
}
use po_c_sqlagent.Text.{◌=ₛ◌, strip, is_space}
use po_c_sqlagent.Python.{Value, llm_unavailable}
use po_c_sqlagent.Client.Schema.{validate_schema}
use po_c_sqlagent.Client.Chat.{
  Json, parse_json, fields?, done, again, refused, CacheFile, Disk, Call, gave_up, cached_chat,
}
use po_c_sqlagent.Client.Provider.{
  ProviderReply, http_status, transport_error, provider_raised, provider_answered, usage_of,
  provider_content, provider_answer, client_error, provider_attempt, Provider, provider_json,
}
use po_c_sqlagent.Client.Conforms.{validate_schema-Conforms}
use po_c_sqlagent.Client.Answered.{
  IsFit, Hit, is_hit, Within, Decided, judged-done, parse_json-IsObject, cached_chat-Within,
  cached_chat-Decided,
}

provider_answer-IsFit :
    (json : Json) (schema body v : Value) → provider_answer json schema body ≡ ok v → IsFit schema v
unfolding provider_answer
provider_answer-IsFit json schema body v h =
    let (fs, e₁, h₁) = >>=-eq-ok (fields? body) _ h in
    let (u, e₂, h₂) = >>=-eq-ok (usage_of fs) _ h₁ in
    let (content, e₃, h₃) = >>=-eq-ok (provider_content fs) _ h₂ in
    let (w, e₄, h₄) = >>=-eq-ok (parse_json json content) _ h₃ in
    let (t, e₅, h₅) = >>=-eq-ok (validate_schema w schema "$") _ h₄ in
    subst (IsFit schema) (ok-injective h₅)
      (parse_json-IsObject json content w e₄, validate_schema-Conforms w schema "$" e₅)

status_is_not_done :
    (b : Bool) (m : String) (v : Value) → (if b then refused m else again m) ≡ done v → ⊥
status_is_not_done true m v h = cc
status_is_not_done false m v h = cc

provider_attempt-IsFit :
    (json : Json) (schema : Value) (r : ProviderReply) (v : Value)
    → provider_attempt json schema r ≡ done v
    → IsFit schema v
provider_attempt-IsFit json schema (http_status code m) v h =
    absurd (status_is_not_done (client_error code) m v h)
provider_attempt-IsFit json schema (transport_error m) v h = absurd (cc h)
provider_attempt-IsFit json schema (provider_raised e) v h = absurd (cc (judged-done (err e) v h))
provider_attempt-IsFit json schema (provider_answered body) v h =
    provider_answer-IsFit json schema body v (judged-done (provider_answer json schema body) v h)

-- Without a key nothing is sent and the cache is not looked at.
abbrev pub Unsent : String → CacheFile → Call → Type 0
Unsent key_variable cache chat =
    (chat.posts ≡ 0)
    × (chat.cache ≡ cache)
    × (chat.result ≡ err (llm_unavailable (key_variable ++ " is not configured")))

-- A call whose key is blank raises, says which variable is missing, sends nothing and leaves the cache
-- as it is. With any other key it returns the object of its cache file with no request; or it makes at
-- least one request and at most one more than the retries, and what it returns, where it raises
-- nothing, is an object that conforms to the schema, and that stands in the cache file where that may
-- be written.
pub provider_json-Within :
    (p : Provider) (json : Json) (disk : Disk) (post : ℕ → ProviderReply) (schema : Value)
    (retries : ℕ) (cache : CacheFile)
    → ((strip is_space p.api_key ≡ "")
        × Unsent p.key_variable cache (provider_json p json disk post schema retries cache))
      ⊎ ((strip is_space p.api_key ≢ "")
          × (Hit cache (provider_json p json disk post schema retries cache)
              ⊎ Within disk schema 1
                  (suc retries)
                  (provider_json p json disk post schema retries cache)))
unfolding provider_json
provider_json-Within p json disk post schema retries cache =
    elim (Bool-cases (strip is_space p.api_key =ₛ "")) [
      | inl without ↦ inl ((eq_iff _ _).0 without, rw without (refl, refl, refl))
      | inr keyed ↦ inr (
        λ e. absurd (cc ((eq_iff (strip is_space p.api_key) "").1 e, keyed)),
        rw keyed (
            cached_chat-Within disk p.label p.model (λ i. provider_attempt json schema (post i))
              schema (λ i v h. provider_attempt-IsFit json schema (post i) v h) retries cache),
      )
    ]

refused_attempt :
    (json : Json) (schema : Value) (r : ProviderReply) (code : ℕ) (m : String)
    → 400 ≤ code
    → code < 500
    → r ≡ http_status code m
    → provider_attempt json schema r ≡ refused m
refused_attempt json schema r code m lo hi e =
    subst (λ r. provider_attempt json schema r ≡ refused m) (sym e) (ground arith)

-- Where there is a key, the cache file holds no object, and every attempt before one within the
-- retries fails in a way that is tried again: a status of 400 to 499 at that attempt ends the call
-- with the error of the client, after as many requests as that takes and with no further one.
pub provider_json-refused :
    (p : Provider) (json : Json) (disk : Disk) (post : ℕ → ProviderReply) (schema : Value)
    (i retries : ℕ) (cache : CacheFile) (code : ℕ) (m : String)
    → (strip is_space p.api_key =ₛ "") ≡ false
    → is_hit cache ≡ false
    → i ≤ retries
    → ((j : ℕ) → j < i → (m : String) × (provider_attempt json schema (post j) ≡ again m))
    → post i ≡ http_status code m
    → 400 ≤ code
    → code < 500
    → ((provider_json p json disk post schema retries cache).result
        ≡ err (gave_up p.label p.model m))
      × ((provider_json p json disk post schema retries cache).posts ≡ suc i)
unfolding provider_json
provider_json-refused p json disk post schema i retries cache code m keyed miss le early e lo hi =
    rw keyed (
      subst
        (λ a. Decided p.label p.model a (suc i) (
          cached_chat disk p.label p.model (λ k. provider_attempt json schema (post k)) retries
            cache))
        (refused_attempt json schema (post i) code m lo hi e)
        (cached_chat-Decided disk p.label p.model (λ k. provider_attempt json schema (post k)) i
          retries cache miss le early))
