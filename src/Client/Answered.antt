-- ===== src/Client/Answered.antt =====
-- sqlagent/llm.py: what chat_json returns, and after how many requests.
use po_c_sqlagent.Base.{
  ℕ, zero, suc, ◌+◌, ◌≤◌, ◌<◌, String, Bool, true, false, ◌≡◌, refl, sym, subst, ok, err, ◌⊎◌, inl,
  inr, ◌&&◌, >>=-eq-ok, ok-injective, arith,
}
use po_c_sqlagent.Text.{strip, is_space}
use po_c_sqlagent.Python.{Value, dict, Fields, value_error, key_error, Py}
use po_c_sqlagent.Client.Schema.{validate_schema}
use po_c_sqlagent.Client.Chat.{
  Json, Reply, http_error, raised, answered, content_of, parsed, object_only, open_fence,
  close_fence, parse_json, checked_answer, Attempt, done, again, stopped, judged, attempt_of,
  CacheFile, missing, unreadable, holds, Disk, Call, drop_invalid, after_attempt, chat_loop, emit,
  gave_up, ended, refused, cached_chat, requested, chat_json,
}
use po_c_sqlagent.Client.Conforms.{Conforms, validate_schema-Conforms}

abbrev pub IsObject : Value → Type 0
IsObject v = (fs : Fields) × (v ≡ dict fs)

object_only-IsObject : (v w : Value) → object_only v ≡ ok w → IsObject w
object_only-IsObject (dict fs) w h = (fs, cc)
object_only-IsObject _ w h = absurd (cc h)

pub parse_json-IsObject :
    (json : Json) (s : String) (v : Value) → parse_json json s ≡ ok v → IsObject v
unfolding parse_json
parse_json-IsObject json s v h =
    let cleaned = close_fence (open_fence (strip is_space s)) in
    let (u, e, h₁) = >>=-eq-ok (parsed json cleaned (json.loads cleaned)) object_only h in
    object_only-IsObject u v h₁

-- An object that conforms to the schema.
abbrev pub IsFit : Value → Value → Type 0
IsFit schema v = IsObject v × Conforms schema v

checked-IsFit :
    (json : Json) (schema body v : Value) → checked_answer json schema body ≡ ok v → IsFit schema v
unfolding checked_answer
checked-IsFit json schema body v h =
    let (content, e₁, h₁) = >>=-eq-ok (content_of body) _ h in
    let (w, e₂, h₂) = >>=-eq-ok (parse_json json content) _ h₁ in
    let (u, e₃, h₃) = >>=-eq-ok (validate_schema w schema "$") _ h₂ in
    subst (IsFit schema) (ok-injective h₃)
      (parse_json-IsObject json content w e₂, validate_schema-Conforms w schema "$" e₃)

pub judged-done : (r : Py Value) (v : Value) → judged r ≡ done v → r ≡ ok v
judged-done (ok w) v h = cc
judged-done (err (value_error m)) v h = absurd (cc h)
judged-done (err key_error) v h = absurd (cc h)
judged-done (err _) v h = absurd (cc h)

attempt-IsFit :
    (json : Json) (schema : Value) (r : Reply) (v : Value)
    → attempt_of json schema r ≡ done v
    → IsFit schema v
attempt-IsFit json schema (http_error m) v h = absurd (cc h)
attempt-IsFit json schema (raised e) v h = absurd (cc (judged-done (err e) v h))
attempt-IsFit json schema (answered body) v h =
    checked-IsFit json schema body v (judged-done (checked_answer json schema body) v h)

-- The result of the attempts: a fit object, in the cache where it may be written, or an exception.
abbrev pub Settled : Disk → Value → Call → Py Value → Type 0
Settled disk schema chat (ok v) =
    IsFit schema v × (disk.writes_allowed && disk.saves ≡ true → chat.cache ≡ holds v)
Settled disk schema chat (err e) = Unit

abbrev pub Within : Disk → Value → (least most : ℕ) → Call → Type 0
Within disk schema least most chat =
    (least ≤ chat.posts) × (chat.posts ≤ most) × Settled disk schema chat chat.result

abbrev pub Hit : CacheFile → Call → Type 0
Hit cache chat =
    (fs : Fields) × (cache ≡ holds (dict fs)) × (chat.posts ≡ 0) × (chat.result ≡ ok (dict fs))

abbrev pub is_hit : CacheFile → Bool
is_hit (holds (dict fs)) = true
is_hit _ = false

module _ (disk : Disk) (label model : String) (attempt : ℕ → Attempt) (schema : Value)
    (fits : (i : ℕ) (v : Value) → attempt i ≡ done v → IsFit schema v) where
  attempt-Within :
      (n i : ℕ) (cache : CacheFile) (a : Attempt) (next : String → Call)
      → ((v : Value) → a ≡ done v → IsFit schema v)
      → ((m : String) → Within disk schema (suc i) (suc (n + i)) (next m))
      → Within disk schema
          (suc i)
          (suc (n + i))
          (after_attempt disk (suc i) cache a (ended label model (suc i) cache) next)
  attempt-Within n i cache (done v) next h k =
      (ground arith, ground arith, (h v refl, λ may. rw may refl))
  attempt-Within n i cache (again m) next h k = k m
  attempt-Within n i cache (refused m) next h k = (ground arith, ground arith, tt)
  attempt-Within n i cache (stopped e) next h k = (ground arith, ground arith, tt)

  loop-Within :
      (n i : ℕ) (error : String) (cache : CacheFile)
      → Within disk schema
          (suc i)
          (suc (n + i))
          (chat_loop disk label model attempt (suc n) i error cache)
  unfolding chat_loop
  loop-Within zero i error cache =
      attempt-Within zero i cache (attempt i) _ (fits i) λ m. (ground arith, ground arith, tt)
  loop-Within (suc n) i error cache = attempt-Within (suc n) i cache (attempt i) _ (fits i) λ m.
      let (least, most, settled) = loop-Within n (suc i) m cache in
      (omega arith, omega arith, settled)

  requested-Within :
      (retries : ℕ) (cache : CacheFile)
      → Within disk schema 1 (suc retries) (requested disk label model attempt retries cache)
  requested-Within retries cache =
      let (least, most, settled) = loop-Within retries 0 "" cache in
      (omega arith, omega arith, settled)

  pub cached_chat-Within :
      (retries : ℕ) (cache : CacheFile)
      → Hit cache (cached_chat disk label model attempt retries cache)
        ⊎ Within disk schema 1 (suc retries) (cached_chat disk label model attempt retries cache)
  unfolding cached_chat
  cached_chat-Within retries missing = inr (requested-Within retries missing)
  cached_chat-Within retries unreadable =
      inr (requested-Within retries (drop_invalid disk unreadable))
  cached_chat-Within retries (holds (dict fs)) = inl (fs, refl, refl, refl)
  cached_chat-Within retries (holds v) =
      inr (requested-Within retries (drop_invalid disk (holds v)))

-- What a call returns for the attempt that decides it.
abbrev pub Decided : (label model : String) → Attempt → ℕ → Call → Type 0
Decided label model (done v) posts chat = (chat.result ≡ ok v) × (chat.posts ≡ posts)
Decided label model (refused m) posts chat =
    (chat.result ≡ err (gave_up label model m)) × (chat.posts ≡ posts)
Decided label model (stopped e) posts chat = (chat.result ≡ err e) × (chat.posts ≡ posts)
Decided label model (again m) posts chat = Unit

module _ (disk : Disk) (label model : String) (attempt : ℕ → Attempt) where
  -- The first attempt that does not fail in a way that is tried again decides the call.
  loop-after_attempt :
      (d n i : ℕ) (error : String) (cache : CacheFile)
      → d ≤ n
      → ((j : ℕ) → j < d → (m : String) × (attempt (j + i) ≡ again m))
      → (next : String → Call) × (chat_loop disk label model attempt (suc n) i error cache
          ≡ after_attempt disk
              (suc (d + i))
              cache
              (attempt (d + i))
              (ended label model (suc (d + i)) cache)
              next)
  unfolding chat_loop
  loop-after_attempt zero n i error cache le early =
      let here : i ≡ 0 + i = omega arith in
      (
        λ m. chat_loop disk label model attempt n (suc i) m cache,
        subst
            (λ k.
              chat_loop disk label model attempt (suc n) i error cache
              ≡ after_attempt disk (suc k) cache (attempt k) (ended label model (suc k) cache)
                  (λ m. chat_loop disk label model attempt n (suc i) m cache))
            here refl,
      )
  loop-after_attempt (suc d) zero i error cache le early = absurd (omega arith)
  loop-after_attempt (suc d) (suc n) i error cache le early =
      let (m, e₀) = early 0 (omega arith) in
      let here : 0 + i ≡ i = omega arith in
      let e = subst (λ k. attempt k ≡ again m) here e₀ in
      let later : d + suc i ≡ suc d + i = omega arith in
      let (next, rest) = loop-after_attempt d n (suc i) m cache (omega arith) λ j less.
        let (m', e') = early (suc j) (omega arith) in
        let same : suc j + i ≡ j + suc i = omega arith in
        (m', subst (λ k. attempt k ≡ again m') same e') in
      (
        next,
        subst
            (λ k.
              chat_loop disk label model attempt (suc (suc n)) i error cache
              ≡ after_attempt disk (suc k) cache (attempt k) (ended label model (suc k) cache) next)
            later (rw e rest),
      )

  requested-after_attempt :
      (i retries : ℕ) (cache : CacheFile)
      → i ≤ retries
      → ((j : ℕ) → j < i → (m : String) × (attempt j ≡ again m))
      → (next : String → Call) × (chat_loop disk label model attempt (suc retries) 0 "" cache
          ≡ after_attempt disk (suc i) cache (attempt i) (ended label model (suc i) cache) next)
  requested-after_attempt i retries cache le early =
      let (next, e) = loop-after_attempt i retries 0 "" cache le λ j less.
        let (m, e) = early j less in
        let same : j ≡ j + 0 = omega arith in (m, subst (λ k. attempt k ≡ again m) same e) in
      let same : i + 0 ≡ i = omega arith in
      (
        next,
        subst
            (λ k.
              chat_loop disk label model attempt (suc retries) 0 "" cache
              ≡ after_attempt disk (suc k) cache (attempt k) (ended label model (suc k) cache) next)
            same e,
      )

  after_attempt-Decided :
      (posts : ℕ) (cache : CacheFile) (a : Attempt) (next : String → Call)
      → Decided label model a posts
          (after_attempt disk posts cache a (ended label model posts cache) next)
  after_attempt-Decided posts cache (done v) next = (refl, refl)
  after_attempt-Decided posts cache (refused m) next = (refl, refl)
  after_attempt-Decided posts cache (stopped e) next = (refl, refl)
  after_attempt-Decided posts cache (again m) next = tt

  -- An event before the others changes neither the result nor the number of requests.
  emit-Decided :
      (a : Attempt) (posts : ℕ) (event : String) (chat : Call)
      → Decided label model a posts chat
      → Decided label model a posts (emit event chat)
  emit-Decided (done v) posts event chat h = h
  emit-Decided (refused m) posts event chat h = h
  emit-Decided (stopped e) posts event chat h = h
  emit-Decided (again m) posts event chat h = h

  requested-Decided :
      (i retries : ℕ) (cache : CacheFile)
      → i ≤ retries
      → ((j : ℕ) → j < i → (m : String) × (attempt j ≡ again m))
      → Decided label model (attempt i) (suc i) (requested disk label model attempt retries cache)
  requested-Decided i retries cache le early =
      let (next, e) = requested-after_attempt i retries cache le early in
      emit-Decided (attempt i) (suc i) "request_started" _ (
        subst (Decided label model (attempt i) (suc i)) (sym e)
          (after_attempt-Decided (suc i) cache (attempt i) next))

  pub cached_chat-Decided :
      (i retries : ℕ) (cache : CacheFile)
      → is_hit cache ≡ false
      → i ≤ retries
      → ((j : ℕ) → j < i → (m : String) × (attempt j ≡ again m))
      → Decided label model (attempt i) (suc i) (cached_chat disk label model attempt retries cache)
  unfolding cached_chat
  cached_chat-Decided i retries missing miss le early = requested-Decided i retries missing le early
  cached_chat-Decided i retries unreadable miss le early =
      emit-Decided (attempt i) (suc i) "cache_invalid" _
        (requested-Decided i retries (drop_invalid disk unreadable) le early)
  cached_chat-Decided i retries (holds (dict fs)) miss le early = absurd (cc miss)
  cached_chat-Decided i retries (holds v) miss le early =
      emit-Decided (attempt i) (suc i) "cache_invalid" _
        (requested-Decided i retries (drop_invalid disk (holds v)) le early)

-- Whatever the server, the cache and the disk answer: a call returns the object of its cache file
-- with no request; or it makes at least one request and at most one more than the retries, and what
-- it returns, where it raises nothing, is an object that conforms to the schema, and that stands in
-- the cache file where that may be written.
pub chat_json-Within :
    (json : Json) (disk : Disk) (model : String) (post : ℕ → Reply) (schema : Value) (retries : ℕ)
    (cache : CacheFile)
    → Hit cache (chat_json json disk model post schema retries cache)
      ⊎ Within disk schema 1 (suc retries) (chat_json json disk model post schema retries cache)
unfolding chat_json
chat_json-Within json disk model post schema =
    cached_chat-Within disk "Ollama" model (λ i. attempt_of json schema (post i)) schema
      λ i v h. attempt-IsFit json schema (post i) v h

-- Where the cache file holds no object, and every attempt before one within the retries fails in a way
-- that is tried again: the call ends with that attempt, where it does not fail in such a way, with its
-- answer or its exception, after as many requests as that takes.
pub chat_json-Decided :
    (json : Json) (disk : Disk) (model : String) (post : ℕ → Reply) (schema : Value) (i retries : ℕ)
    (cache : CacheFile)
    → is_hit cache ≡ false
    → i ≤ retries
    → ((j : ℕ) → j < i → (m : String) × (attempt_of json schema (post j) ≡ again m))
    → Decided "Ollama" model
        (attempt_of json schema (post i))
        (suc i)
        (chat_json json disk model post schema retries cache)
unfolding chat_json
chat_json-Decided json disk model post schema =
    cached_chat-Decided disk "Ollama" model (λ k. attempt_of json schema (post k))
