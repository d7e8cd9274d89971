-- ===== src/Text/Laws.antt =====
-- Laws of the text operations.
use text.Mathlib.TextEquality.{eq_iff}
use po_c_sqlagent.Base.{String, true, false, ◌≡◌, List, In, inl, inr, arith}
use po_c_sqlagent.Text.Search.{member}

-- A name passes `member` exactly when it is in the list.
pub member→In : (x : String) (ys : List String) → member x ys ≡ true → In x ys
unfolding member
member→In x List.[] h = cc
member→In x (List.◌∷◌ y ys) h = ground (arith, eq_iff y x, member→In x ys)

pub In→member : (x : String) (ys : List String) → In x ys → member x ys ≡ true
unfolding member
In→member x List.[] h = elim h [ ]
In→member x (List.◌∷◌ y ys) (inl e) = ground (arith, eq_iff y x)
In→member x (List.◌∷◌ y ys) (inr m) = ground (arith, In→member x ys m)

pub not-member→not-In : (x : String) (ys : List String) → member x ys ≡ false → ¬ In x ys
not-member→not-In x ys h m = cc (In→member x ys m)
