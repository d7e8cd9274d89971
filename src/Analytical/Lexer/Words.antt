-- ===== src/Analytical/Lexer/Words.antt =====
-- The words that the compiler takes from a fixed list, in either case, hold no quote and no
-- semicolon.
use Prim.Native.Char.{Char}
use Prim.Native.String.{[], ◌∷◌}
use text.Mathlib.TextEquality.{eq_iff}
use po_c_sqlagent.Base.{String, true, ◌≡◌, refl, List, all, subst, arith, Bool-cases, inl, inr}
use po_c_sqlagent.Text.{
  member, lower, upper, translate, map_chars, upper_letters, lower_letters, ◌=ₛ◌,
}
use po_c_sqlagent.Analytical.Lexer.Defs.{is_plain, is_inert}

translate-is_inert :
    (xs ys : String) (c : Char)
    → is_plain ys ≡ true
    → is_inert c ≡ true
    → is_inert (translate xs ys c) ≡ true
unfolding translate is_plain
translate-is_inert (x ∷ xs) (y ∷ ys) c h k = ground (arith, translate-is_inert xs ys c)
translate-is_inert [] ys c h k = k
translate-is_inert (x ∷ xs) [] c h k = k

translated-is_inert :
    (xs ys : String) (c : Char)
    → is_plain xs ≡ true
    → is_inert (translate xs ys c) ≡ true
    → is_inert c ≡ true
unfolding translate is_plain
translated-is_inert (x ∷ xs) (y ∷ ys) c h k = ground (arith, translated-is_inert xs ys c)
translated-is_inert [] ys c h k = k
translated-is_inert (x ∷ xs) [] c h k = k

upper-is_plain : (s : String) → is_plain s ≡ true → is_plain (upper s) ≡ true
unfolding upper map_chars is_plain
upper-is_plain [] h = refl
upper-is_plain (c ∷ s) h =
    ground (arith, translate-is_inert lower_letters upper_letters c refl, upper-is_plain s)

lower-is_plain : (s : String) → is_plain (lower s) ≡ true → is_plain s ≡ true
unfolding lower map_chars is_plain
lower-is_plain [] h = refl
lower-is_plain (c ∷ s) h =
    ground (arith, translated-is_inert upper_letters lower_letters c refl, lower-is_plain s)

pub member-is_plain :
    (s : String) (words : List String)
    → all is_plain words ≡ true
    → member s words ≡ true
    → is_plain s ≡ true
unfolding all member
member-is_plain s List.[] h m = cc
member-is_plain s (List.◌∷◌ w ws) h m = elim (Bool-cases (w =ₛ s)) [
  | inl e ↦ subst (λ t. is_plain t ≡ true) ((eq_iff w s).0 e) (ground arith)
  | inr n ↦ member-is_plain s ws (ground arith) (ground arith)
]

-- A word of a plain list, put in upper case.
pub upper-word-is_plain :
    (s : String) (words : List String)
    → all is_plain words ≡ true
    → member s words ≡ true
    → is_plain (upper s) ≡ true
upper-word-is_plain s words h m = upper-is_plain s (member-is_plain s words h m)

-- A word that is in a plain list when it is put in lower case, put in upper case.
pub upper-is_plain_of_lower :
    (s : String) (words : List String)
    → all is_plain words ≡ true
    → member (lower s) words ≡ true
    → is_plain (upper s) ≡ true
upper-is_plain_of_lower s words h m =
    upper-is_plain s (lower-is_plain s (member-is_plain (lower s) words h m))
