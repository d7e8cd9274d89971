-- ===== src/Analytical/Scoped/Sets.antt =====
-- Membership in the sets of columns.
use po_c_sqlagent.Base.{
  String, true, ◌≡◌, refl, ◌⊎◌, inl, inr, List, [], ◌∷◌, ◌++◌, In, all, arith, Bool-cases, Option,
  none, some,
}
use po_c_sqlagent.Text.{member}
use po_c_sqlagent.Text.Laws.{member→In}
use po_c_sqlagent.Composer.{sorted, insert_sorted, Schema, columns?, le_text}
use po_c_sqlagent.Composer.Query.{ColumnOf}
use po_c_sqlagent.Analytical.Tables.{include, union, to_set, subset, set_or_none, schema_columns}

In-append : (x : String) (a b : List String) → In x (a ++ b) → In x a ⊎ In x b
In-append x [] b h = inr h
In-append x (y ∷ a) b (inl e) = inl (inl e)
In-append x (y ∷ a) b (inr m) = elim (In-append x a b m) [ inl l ↦ inl (inr l) | inr r ↦ inr r ]

In_left : (x : String) (a b : List String) → In x a → In x (a ++ b)
In_left x [] b h = elim h [ ]
In_left x (y ∷ a) b (inl e) = inl e
In_left x (y ∷ a) b (inr m) = inr (In_left x a b m)

In_right : (x : String) (a b : List String) → In x b → In x (a ++ b)
In_right x [] b h = h
In_right x (y ∷ a) b h = inr (In_right x a b h)

pub In_parts :
    (x : String) (a b : List String) → (In x a → In x (a ++ b)) × (In x b → In x (a ++ b))
In_parts x a b = (In_left x a b, In_right x a b)

pub include_self : (x : String) (s : List String) → In x (include x s)
unfolding include
include_self x s = elim (Bool-cases (member x s)) [
  | inl old ↦ rw old (member→In x s old)
  | inr new ↦ rw new (In_right x s (x ∷ []) (inl refl))
]

pub include_kept : (x y : String) (s : List String) → In y s → In y (include x s)
unfolding include
include_kept x y s h = elim (Bool-cases (member x s)) [
  | inl old ↦ rw old h
  | inr new ↦ rw new (In_left y s (x ∷ []) h)
]

pub include-In : (x y : String) (s : List String) → In y (include x s) → In y s ⊎ (x ≡ y)
unfolding include
include-In x y s h = elim (Bool-cases (member x s)) [
  | inl old ↦ inl (rw old at h)
  | inr new ↦ elim (In-append y s (x ∷ []) (rw new at h)) [
    | inl l ↦ inl l
    | inr (inl e) ↦ inr e
    | inr (inr m) ↦ elim m [ ]
  ]
]

pub union-In : (y : String) (a xs : List String) → In y (union a xs) → In y a ⊎ In y xs
unfolding union
union-In y a [] h = inl h
union-In y a (x ∷ xs) h = elim (union-In y (include x a) xs h) [
  | inl m ↦ elim (include-In x y a m) [ inl l ↦ inl l | inr e ↦ inr (inl e) ]
  | inr m ↦ inr (inr m)
]

union_left : (y : String) (a xs : List String) → In y a → In y (union a xs)
unfolding union
union_left y a [] h = h
union_left y a (x ∷ xs) h = union_left y (include x a) xs (include_kept x y a h)

union_right : (y : String) (a xs : List String) → In y xs → In y (union a xs)
unfolding union
union_right y a [] h = elim h [ ]
union_right y a (x ∷ xs) (inl e) = union_left y (include x a) xs (rw (← e) (include_self x a))
union_right y a (x ∷ xs) (inr m) = union_right y (include x a) xs m

pub union_parts :
    (y : String) (a xs : List String) → (In y a → In y (union a xs)) × (In y xs → In y (union a xs))
union_parts y a xs = (union_left y a xs, union_right y a xs)

pub to_set_iff :
    (y : String) (xs : List String) → (In y (to_set xs) → In y xs) × (In y xs → In y (to_set xs))
unfolding to_set
to_set_iff y xs =
    (λ h. elim (union-In y [] xs h) [ inl m ↦ elim m [ ] | inr m ↦ m ], union_right y [] xs)

pub subset-In : (xs b : List String) (y : String) → subset xs b ≡ true → In y xs → In y b
unfolding subset all
subset-In [] b y h m = elim m [ ]
subset-In (x ∷ xs) b y h (inl e) = rw (← e) (member→In x b (ground arith))
subset-In (x ∷ xs) b y h (inr m) = subset-In xs b y (ground arith) m

insert_sorted-In : (x y : String) (ys : List String) → In y (insert_sorted x ys) → (x ≡ y) ⊎ In y ys
unfolding insert_sorted
insert_sorted-In x y [] (inl e) = inl e
insert_sorted-In x y [] (inr m) = elim m [ ]
insert_sorted-In x y (z ∷ zs) h = elim (Bool-cases (le_text x z)) [
  | inl first ↦ elim (rw first at h) [ inl e ↦ inl e | inr m ↦ inr m ]
  | inr later ↦ elim (rw later at h) [
    | inl e ↦ inr (inl e)
    | inr m ↦ elim (insert_sorted-In x y zs m) [ inl e ↦ inl e | inr n ↦ inr (inr n) ]
  ]
]

pub sorted-In : (y : String) (xs : List String) → In y (sorted xs) → In y xs
unfolding sorted
sorted-In y [] h = elim h [ ]
sorted-In y (x ∷ xs) h = elim (insert_sorted-In x y (sorted xs) h) [
  | inl e ↦ inl e
  | inr m ↦ inr (sorted-In y xs m)
]

set_or_none-In :
    (found : Option (List String)) (c : String)
    → In c (set_or_none found)
    → (cols : List String) × (found ≡ some cols) × In c cols
unfolding set_or_none
set_or_none-In none c h = elim h [ ]
set_or_none-In (some cols) c h = (cols, refl, (to_set_iff c cols).0 h)

pub schema_columns-ColumnOf :
    (schema : Schema) (t c : String) → In c (schema_columns schema t) → ColumnOf schema t c
unfolding schema_columns
schema_columns-ColumnOf schema t c h = set_or_none-In (columns? t schema) c h
