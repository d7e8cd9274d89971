-- ===== src/Composer/Ordered.antt =====
-- The order of an accepted plan is by something selected, and its limit is positive.
use po_c_sqlagent.Base.{
  String, Bool, true, false, ◌≡◌, refl, ◌⊎◌, inl, inr, Option, none, some, List, In, ok, >>=-eq-ok,
  guard-eq-ok, ok-injective, subst, arith, Bool-cases, ◌||◌, if◌then◌else◌,
}
use po_c_sqlagent.Text.{◌=ₛ◌, member, lower}
use po_c_sqlagent.Text.Laws.{member→In}
use po_c_sqlagent.Python.{ℤ, Value, null, dict, Fields, get, show, truthy, to_int, Py}
use po_c_sqlagent.Composer.Parts.{text_or}
use po_c_sqlagent.Composer.Assemble.{
  assemble_order, order_by, assemble_limit, limit_of, capped, min_ℤ, is_positive, checked_int,
  positive_limit, first_or, raw_limit,
}
use po_c_sqlagent.Composer.Query.{OrderPart, order_sql, OrderOf, PositiveLimit}

or-eq-true : (a b : Bool) → (a || b) ≡ true → (a ≡ true) ⊎ (b ≡ true)
or-eq-true a b h = ground arith

abbrev direction_of : Bool → String
direction_of b = if b then "DESC" else "ASC"

direction_cases : (b : Bool) → (direction_of b ≡ "ASC") ⊎ (direction_of b ≡ "DESC")
direction_cases true = inr refl
direction_cases false = inl refl

In-either :
    (x : String) (xs ys : List String)
    → (member x xs ≡ true) ⊎ (member x ys ≡ true)
    → In x xs ⊎ In x ys
In-either x xs ys (inl m) = inl (member→In x xs m)
In-either x xs ys (inr m) = inr (member→In x ys m)

abbrev pub OrderFrom : List String → List String → String → Type 0
OrderFrom columns aliases s = (o : Option OrderPart) × (order_sql o ≡ s) × OrderOf columns aliases o

order_by-OrderFrom :
    (columns aliases : List String) (order : Fields) (s : String)
    → order_by columns aliases order ≡ ok s
    → OrderFrom columns aliases s
unfolding order_by
order_by-OrderFrom columns aliases order s h =
    let (selected, h₁) = guard-eq-ok _ _ _ h in
    let asked = show (get "by" order) in
    let by = if asked =ₛ "measure" then first_or asked aliases else asked in
    let descends = lower (text_or "dir" "desc" order) =ₛ "desc" in
    let chosen = or-eq-true (member by columns) (member by aliases) selected in
    (
      some (record { by = by; direction = if descends then "DESC" else "ASC" }),
      ok-injective h₁,
      (In-either by columns aliases chosen, direction_cases descends),
    )

pub order-OrderFrom :
    (columns aliases : List String) (v : Value) (s : String)
    → assemble_order columns aliases v ≡ ok s
    → OrderFrom columns aliases s
unfolding assemble_order
order-OrderFrom columns aliases (dict order) s h = elim (Bool-cases (truthy (get "by" order))) [
  | inl asked ↦ order_by-OrderFrom columns aliases order s (rw asked at h)
  | inr other ↦ (none, ok-injective (rw other at h), tt)
]
order-OrderFrom columns aliases _ s h = (none, ok-injective h, tt)

capped-positive :
    (m : Option ℤ) (n : ℤ)
    → PositiveLimit m
    → is_positive n ≡ true
    → is_positive (capped m n) ≡ true
unfolding capped min_ℤ is_positive
capped-positive none n hm hn = hn
capped-positive (some m) n hm hn = ground arith

positive_limit-PositiveLimit :
    (m : Option ℤ) (read : Py ℤ) (l : Option ℤ)
    → PositiveLimit m
    → positive_limit m read ≡ ok l
    → PositiveLimit l
unfolding positive_limit
positive_limit-PositiveLimit m read l hm h =
    let (n, checked, h₁) = >>=-eq-ok (checked_int read) _ h in
    let (positive, h₂) = guard-eq-ok _ _ _ h₁ in
    subst PositiveLimit {x = some (capped m n)} (ok-injective h₂) (capped-positive m n hm positive)

limit_of-PositiveLimit :
    (m : Option ℤ) (v : Value) (l : Option ℤ)
    → PositiveLimit m
    → limit_of m v ≡ ok l
    → PositiveLimit l
unfolding limit_of
limit_of-PositiveLimit m null l hm h = subst PositiveLimit (ok-injective h) tt
limit_of-PositiveLimit m v l hm h = positive_limit-PositiveLimit m (to_int v) l hm h

pub limit-PositiveLimit :
    (default_limit max_limit : Option ℤ) (spec : Fields) (l : Option ℤ)
    → PositiveLimit max_limit
    → assemble_limit default_limit max_limit spec ≡ ok l
    → PositiveLimit l
unfolding assemble_limit
limit-PositiveLimit default_limit max_limit spec l hm h =
    limit_of-PositiveLimit max_limit (raw_limit default_limit spec) l hm h
