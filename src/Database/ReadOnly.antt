-- ===== src/Database/ReadOnly.antt =====
-- sqlagent/db.py, validate_read_only. The formatter and the splitter of sqlparse are arguments.
use Prim.Native.Char.{Char, code}
use Prim.Native.String as Native
use Prim.Native.String.{◌++◌}
use text.Mathlib.TextLemmas.{cons-append}
use text.Mathlib.TextEquality.{eq_iff}
use po_c_sqlagent.Base.{
  ℕ, String, Bool, true, false, not, ◌||◌, ◌≡◌, refl, Bool-cases, inl, inr, List, [], ◌∷◌, map,
  ◌++◌ as append, ok, err, ◌>>=◌, ◌>>◌, guard, guard-eq-ok, >>=-eq-ok, ok-injective, ◌==◌, subst,
  sym, All, any, not-eq-true, ==_iff, arith,
}
use po_c_sqlagent.Text.{◌=ₛ◌, lower, strip, rstrip, is_space, starts_with, contains_word}
use po_c_sqlagent.Python.{Py, value_error}

abbrev pub forbidden_keywords : List String
forbidden_keywords =
    "insert" ∷ "update" ∷ "delete" ∷ "upsert" ∷ "merge" ∷ "alter" ∷ "drop" ∷ "truncate" ∷ "create"
    ∷ "grant" ∷ "revoke" ∷ "copy" ∷ "call" ∷ "do" ∷ []

abbrev pub default_forbidden_tables : List String
default_forbidden_tables = "pg_authid" ∷ "pg_shadow" ∷ "information_schema.sql_features" ∷ []

-- `FORBIDDEN_KEYWORDS.search(query)`, which ignores the case.
unfoldable pub has_forbidden : String → Bool
unfolding any contains_word lower
has_forbidden query = any (λ k. contains_word k (lower query)) forbidden_keywords

-- The blocked tables one by one.
unfoldable pub check_tables : String → List String → Py (Unit {0})
unfolding contains_word
check_tables lowered [] = ok tt
check_tables lowered (t ∷ ts) = do
  guard (not (contains_word t lowered)) (value_error ("forbidden table referenced: " ++ t))
  check_tables lowered ts

module _ (format_sql : String → String) (statements : String → ℕ) where
  -- The text without comments, outer blanks and closing semicolons.
  unfoldable pub bare_query : String → String
  unfolding strip rstrip is_space
  bare_query sql =
      strip is_space (rstrip (λ c. code c == 59) (strip is_space (format_sql (strip is_space sql))))

  unfoldable pub validate_read_only : List String → String → Py String
  unfolding bare_query has_forbidden check_tables starts_with lower
  validate_read_only forbidden_tables sql = do
    let query = bare_query sql
    guard (not (query =ₛ "")) (value_error "empty SQL")
    guard (statements query == 1) (value_error "exactly one SQL statement is required")
    guard (not (has_forbidden query)) (value_error "only read-only SELECT statements are allowed")
    guard (starts_with (lower query) "select" || starts_with (lower query) "with")
        (value_error "query must start with SELECT or WITH")
    check_tables (lower query) (append default_forbidden_tables (map lower forbidden_tables))
    ok query

  -- What validation promises of a query.
  pub record IsReadOnly (forbidden_tables : List String) (query : String) : Type 0 where
    pub not_empty : (query =ₛ "") ≡ false
    pub one_statement : statements query ≡ 1
    pub no_keyword : All (λ k. contains_word k (lower query) ≡ false) forbidden_keywords
    pub reads : (starts_with (lower query) "select" || starts_with (lower query) "with") ≡ true
    pub no_table :
        All
          (λ t. contains_word t (lower query) ≡ false)
          (append default_forbidden_tables (map lower forbidden_tables))

  tables-unblocked :
      (lowered : String) (tables : List String)
      → check_tables lowered tables ≡ ok tt
      → All (λ t. contains_word t lowered ≡ false) tables
  unfolding check_tables
  tables-unblocked lowered [] h = tt
  tables-unblocked lowered (t ∷ ts) h =
      let (free, rest) =
        guard-eq-ok (not (contains_word t lowered)) _ (check_tables lowered ts) h in
      (not-eq-true _ free, tables-unblocked lowered ts rest)

  none-any : (p : String → Bool) (xs : List String) → any p xs ≡ false → All (λ x. p x ≡ false) xs
  unfolding any
  none-any p [] h = tt
  none-any p (x ∷ xs) h = (ground arith, none-any p xs (ground arith))

  -- A text that passes is one statement that begins with SELECT or WITH, holds none of the
  -- forbidden keywords as a word and names no blocked table; what passes is the text without
  -- comments.
  pub validate_read_only-IsReadOnly :
      (forbidden_tables : List String) (sql query : String)
      → validate_read_only forbidden_tables sql ≡ ok query
      → (query ≡ bare_query sql) × IsReadOnly forbidden_tables query
  unfolding validate_read_only has_forbidden
  validate_read_only-IsReadOnly forbidden_tables sql query h =
      let q = bare_query sql in
      let (some_text, h₁) = guard-eq-ok (not (q =ₛ "")) _ _ h in
      let (one, h₂) = guard-eq-ok (statements q == 1) _ _ h₁ in
      let (no_words, h₃) = guard-eq-ok (not (has_forbidden q)) _ _ h₂ in
      let (begins, h₄) = guard-eq-ok _ _ _ h₃ in
      let (u, tables, h₅) =
        >>=-eq-ok
          (check_tables (lower q) (append default_forbidden_tables (map lower forbidden_tables))) _
          h₄ in
      let is_q : q ≡ query = ok-injective h₅ in
      (
        sym is_q,
        subst (IsReadOnly forbidden_tables) is_q (record {
          not_empty = not-eq-true _ some_text;
          one_statement = (==_iff _ 1).0 one;
          no_keyword =
              none-any (λ k. contains_word k (lower q)) forbidden_keywords (not-eq-true _ no_words);
          reads = begins;
          no_table =
              tables-unblocked (lower q)
                (append default_forbidden_tables (map lower forbidden_tables)) tables;
        }),
      )

-- A text that begins with a given one is not empty.
pub append_not_empty : (c : Char) (s t : String) → ((Native.◌∷◌ c s) ++ t =ₛ "") ≡ false
append_not_empty c s t = elim (Bool-cases ((Native.◌∷◌ c s) ++ t =ₛ "")) [
  | inl empty ↦ absurd (cc (cons-append c s t, (eq_iff _ _).0 empty))
  | inr full ↦ full
]

-- A refusal says why: its message is not empty.
abbrev pub Says : {A : Type 0} → Py A → Type 0
Says (ok a) = Unit
Says (err (value_error m)) = (m =ₛ "") ≡ false
Says (err e) = Unit

Says-guard :
    {A : Type 0} (b : Bool) (m : String) (k : Py A)
    → (m =ₛ "") ≡ false
    → Says k
    → Says (guard b (value_error m) >> k)
Says-guard true m k hm hk = hk
Says-guard false m k hm hk = hm

check_tables-Says : (lowered : String) (tables : List String) → Says (check_tables lowered tables)
unfolding check_tables
check_tables-Says lowered [] = tt
check_tables-Says lowered (t ∷ ts) =
    Says-guard (not (contains_word t lowered)) _ _
      (append_not_empty "f" "orbidden table referenced: " t) (check_tables-Says lowered ts)

Says-bind :
    {A B : Type 0} (m : Py A) (f : A → Py B) → Says m → ((a : A) → Says (f a)) → Says (m >>= f)
Says-bind (ok a) f hm hf = hf a
Says-bind (err (value_error m)) f hm hf = hm
Says-bind (err e) f hm hf = tt

pub validate_read_only-Says :
    (format_sql : String → String) (statements : String → ℕ) (forbidden_tables : List String)
    (sql : String)
    → Says (validate_read_only format_sql statements forbidden_tables sql)
unfolding validate_read_only
validate_read_only-Says format_sql statements forbidden_tables sql =
    let q = bare_query format_sql statements sql in
    Says-guard (not (q =ₛ "")) _ _ refl (
      Says-guard (statements q == 1) _ _ refl (
        Says-guard (not (has_forbidden q)) _ _ refl (
          Says-guard (starts_with (lower q) "select" || starts_with (lower q) "with") _ _ refl (
            Says-bind
              (check_tables (lower q)
                (append default_forbidden_tables (map lower forbidden_tables)))
              _
              (check_tables-Says (lower q)
                (append default_forbidden_tables (map lower forbidden_tables)))
              (λ u. tt)))))
