-- ===== src/FailureQueue/Updates.antt =====
-- How the SQL statements change the number of rows that pass a test, and properties of all rows.
use po_c_sqlagent.Base.{
  ℕ, ◌+◌, ◌*◌, ◌≤◌, ◌<◌, Bool, true, false, ◌≡◌, refl, none, some, List, [], ◌∷◌, ◌++◌, arith, All,
  In, subst, sym, ◌∙◌, Option-cases, inl, inr, Bool-cases,
}
use po_c_sqlagent.FailureQueue.Table.{Job, update_where, first_where, oldest_pending, is_pending}

abbrev pub one_if : Bool → ℕ
one_if true = 1
one_if false = 0

unfoldable pub count_where : (Job → Bool) → List Job → ℕ
count_where p [] = 0
count_where p (j ∷ js) = one_if (p j) + count_where p js

pub count_where-append :
    (p : Job → Bool) (xs ys : List Job)
    → count_where p (xs ++ ys) ≡ count_where p xs + count_where p ys
unfolding count_where
count_where-append p [] ys = omega arith
count_where-append p (j ∷ js) ys = omega (arith, count_where-append p js ys)

pub count_where-one : (p : Job → Bool) (j : Job) → count_where p (j ∷ []) ≡ one_if (p j)
unfolding count_where
count_where-one p j = omega arith

-- An update whose new rows pass the test only if the old ones did makes no more rows pass.
pub count_where-update_le :
    (t p : Job → Bool) (f : Job → Job) (jobs : List Job)
    → ((j : Job) → In j jobs → p j ≡ true → t (f j) ≡ true → t j ≡ true)
    → count_where t (update_where p f jobs) ≤ count_where t jobs
unfolding count_where update_where
count_where-update_le t p f [] keeps = omega arith
count_where-update_le t p f (j ∷ js) keeps =
    ground (arith, keeps j (inl refl), count_where-update_le t p f js (λ k m. keeps k (inr m)))

-- If moreover a row that passed is updated into one that does not, fewer rows pass.
pub count_where-update_lt :
    (t p : Job → Bool) (f : Job → Job) (row : Job) (jobs : List Job)
    → ((j : Job) → p j ≡ true → t (f j) ≡ false)
    → In row jobs
    → p row ≡ true
    → t row ≡ true
    → count_where t (update_where p f jobs) < count_where t jobs
unfolding count_where update_where
count_where-update_lt t p f row [] drops m hp ht = elim m [ ]
count_where-update_lt t p f row (j ∷ js) drops (inl e) hp ht =
    ground (
      arith,
      e,
      drops j,
      count_where-update_le t p f js (λ k m hk hf. absurd (cc (drops k hk, hf))),
    )
count_where-update_lt t p f row (j ∷ js) drops (inr m) hp ht =
    ground (arith, drops j, count_where-update_lt t p f row js drops m hp ht)

pub first_where-none :
    (p : Job → Bool) (jobs : List Job) → first_where p jobs ≡ none → count_where p jobs ≡ 0
unfolding first_where count_where
first_where-none p [] h = refl
first_where-none p (j ∷ js) h = ground (arith, first_where-none p js)

pub first_where-some :
    (p : Job → Bool) (jobs : List Job) (j : Job)
    → first_where p jobs ≡ some j
    → In j jobs × (p j ≡ true)
unfolding first_where
first_where-some p [] j h = absurd (cc h)
first_where-some p (k ∷ js) j h = ground (arith, first_where-some p js j)

pub All-update :
    (P : Job → Type 0) (p : Job → Bool) (f : Job → Job) (jobs : List Job)
    → ((j : Job) → In j jobs → p j ≡ true → P j → P (f j))
    → All P jobs
    → All P (update_where p f jobs)
unfolding update_where
All-update P p f [] keeps h = h
All-update P p f (j ∷ js) keeps h =
    let rest = All-update P p f js (λ k m. keeps k (inr m)) h.1 in
    elim (Bool-cases (p j)) [
      | inl hit ↦ rw hit (keeps j (inl refl) hit h.0, rest)
      | inr miss ↦ rw miss (h.0, rest)
    ]

-- Every row that the update meets has the property, whatever it had before.
pub All-updated :
    (P : Job → Type 0) (p : Job → Bool) (f : Job → Job) (jobs : List Job)
    → ((j : Job) → In j jobs → (p j ≡ true → P (f j)) × (p j ≡ false → P j))
    → All P (update_where p f jobs)
unfolding update_where
All-updated P p f [] keeps = tt
All-updated P p f (j ∷ js) keeps =
    let rest = All-updated P p f js (λ k m. keeps k (inr m)) in
    elim (Bool-cases (p j)) [
      | inl hit ↦ rw hit ((keeps j (inl refl)).0 hit, rest)
      | inr miss ↦ rw miss ((keeps j (inl refl)).1 miss, rest)
    ]

pub update_where-append :
    (p : Job → Bool) (f : Job → Job) (xs ys : List Job)
    → update_where p f (xs ++ ys) ≡ update_where p f xs ++ update_where p f ys
unfolding update_where
update_where-append p f [] ys = refl
update_where-append p f (x ∷ xs) ys = cc (update_where-append p f xs ys)

pub All-append : (P : Job → Type 0) (xs ys : List Job) → All P xs → All P ys → All P (xs ++ ys)
All-append P [] ys hx hy = hy
All-append P (x ∷ xs) ys hx hy = (hx.0, All-append P xs ys hx.1 hy)

pub All-In : (P : Job → Type 0) (jobs : List Job) (j : Job) → All P jobs → In j jobs → P j
All-In P [] j h m = elim m [ ]
All-In P (x ∷ xs) j h (inl e) = subst P e h.0
All-In P (x ∷ xs) j h (inr m) = All-In P xs j h.1 m

pub In-count_where :
    (p : Job → Bool) (jobs : List Job) (j : Job) → In j jobs → p j ≡ true → 1 ≤ count_where p jobs
unfolding count_where
In-count_where p [] j m h = elim m [ ]
In-count_where p (x ∷ xs) j (inl e) h = ground (arith, e, h)
In-count_where p (x ∷ xs) j (inr m) h = omega (arith, In-count_where p xs j m h)

-- Where at most one row passes a test, two rows that pass it are one.
pub only_one :
    (p : Job → Bool) (jobs : List Job) (a b : Job)
    → count_where p jobs ≤ 1
    → In a jobs
    → In b jobs
    → p a ≡ true
    → p b ≡ true
    → a ≡ b
unfolding count_where
only_one p [] a b h ma mb ha hb = elim ma [ ]
only_one p (x ∷ xs) a b h (inl e) (inl e') ha hb = sym e ∙ e'
only_one p (x ∷ xs) a b h (inl e) (inr m) ha hb =
    absurd (ground (arith, e, ha, In-count_where p xs b m hb, h))
only_one p (x ∷ xs) a b h (inr m) (inl e) ha hb =
    absurd (ground (arith, e, hb, In-count_where p xs a m ha, h))
only_one p (x ∷ xs) a b h (inr ma) (inr mb) ha hb = only_one p xs a b (omega arith) ma mb ha hb

-- The row that is selected as the oldest is one of the pending rows, and none is older.
pub oldest_pending-In :
    (jobs : List Job) (row : Job)
    → oldest_pending jobs ≡ some row
    → In row jobs × (is_pending row.status ≡ true)
unfolding oldest_pending
oldest_pending-In [] row h = absurd (cc h)
oldest_pending-In (j ∷ js) row h = elim (Option-cases (oldest_pending js)) [
  | inl last ↦ ground (arith, last)
  | inr (k, e) ↦ ground (arith, e, oldest_pending-In js k)
]

abbrev pub NotOlder : Job → Job → Type 0
NotOlder row j = is_pending j.status ≡ true → row.created_at ≤ j.created_at

pub oldest_pending-none :
    (jobs : List Job) → oldest_pending jobs ≡ none → All (λ j. is_pending j.status ≡ false) jobs
unfolding oldest_pending
oldest_pending-none [] h = tt
oldest_pending-none (j ∷ js) h = (ground arith, oldest_pending-none js (ground arith))

-- Two updates of the same rows are one, where the first keeps the rows that are met.
pub update_where-update_where :
    (p : Job → Bool) (f g : Job → Job) (jobs : List Job)
    → ((j : Job) → p (f j) ≡ p j)
    → update_where p g (update_where p f jobs) ≡ update_where p (λ j. g (f j)) jobs
unfolding update_where
update_where-update_where p f g [] same = refl
update_where-update_where p f g (j ∷ js) same =
    ground (arith, same j, update_where-update_where p f g js same)

pub update_where-none :
    (p : Job → Bool) (f : Job → Job) (jobs : List Job)
    → count_where p jobs ≡ 0
    → update_where p f jobs ≡ jobs
unfolding count_where update_where
update_where-none p f [] h = refl
update_where-none p f (j ∷ js) h = ground (arith, update_where-none p f js)

pub count_where_mono :
    (p t : Job → Bool) (jobs : List Job)
    → ((j : Job) → p j ≡ true → t j ≡ true)
    → count_where p jobs ≤ count_where t jobs
unfolding count_where
count_where_mono p t [] keeps = omega arith
count_where_mono p t (j ∷ js) keeps = ground (arith, keeps j, count_where_mono p t js keeps)

-- How often the failures of the rows have occurred, all together.
unfoldable pub occurrences : List Job → ℕ
occurrences [] = 0
occurrences (j ∷ js) = j.occurrence_count + occurrences js

pub occurrences-append :
    (xs ys : List Job) → occurrences (xs ++ ys) ≡ occurrences xs + occurrences ys
unfolding occurrences
occurrences-append [] ys = omega arith
occurrences-append (x ∷ xs) ys = omega (arith, occurrences-append xs ys)

pub occurrences-one : (j : Job) → occurrences (j ∷ []) ≡ j.occurrence_count
unfolding occurrences
occurrences-one j = omega arith

-- An update that adds `n` to the count of each row that it meets.
pub occurrences-update :
    (p : Job → Bool) (f : Job → Job) (n : ℕ) (jobs : List Job)
    → ((j : Job) → (f j).occurrence_count ≡ j.occurrence_count + n)
    → occurrences (update_where p f jobs) ≡ occurrences jobs + n * count_where p jobs
unfolding count_where update_where occurrences
occurrences-update p f n [] adds = omega arith
occurrences-update p f n (j ∷ js) adds = elim (Bool-cases (p j)) [
  | inl hit ↦ rw hit (grind (arith, adds j, occurrences-update p f n js adds))
  | inr miss ↦ rw miss (omega (arith, occurrences-update p f n js adds))
]
