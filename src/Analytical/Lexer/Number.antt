-- ===== src/Analytical/Lexer/Number.antt =====
-- The digits of a number hold no quote and no semicolon.
use Prim.Native.Nat.{zero, suc}
use Prim.Native.String.{[], ◌∷◌, ◌++◌}
use text.Mathlib.TextLemmas.{nil-append, cons-append}
use po_c_sqlagent.Base.{
  ℕ, ◌+◌, ◌/◌, ◌%◌, ◌<◌, String, Bool, true, ◌&&◌, ◌≡◌, refl, ◌==◌, arith, ltb, Bool-cases, inl,
  inr,
}
use po_c_sqlagent.Text.{show_nat, digit, digits_from}
use po_c_sqlagent.Python.{ℤ, pos, negsuc, show_int}
use po_c_sqlagent.Analytical.Lexer.Defs.{is_plain}

pub is_plain-append :
    (s t : String) → is_plain s ≡ true → is_plain t ≡ true → is_plain (s ++ t) ≡ true
unfolding is_plain
is_plain-append [] t h k = rw nil-append k
is_plain-append (c ∷ s) t h k = rw cons-append (ground (arith, is_plain-append s t))

all_digits : ℕ → Bool
unfolding digit is_plain
all_digits zero = true
all_digits (suc n) = is_plain (digit n) && all_digits n

all_digits_lem : (n k : ℕ) → all_digits n ≡ true → k < n → is_plain (digit k) ≡ true
unfolding all_digits
all_digits_lem zero k h lt = absurd (omega arith)
all_digits_lem (suc n) k h lt = elim (Bool-cases (k == n)) [
  | inl e ↦ ground (arith)
  | inr e ↦ ground (arith, all_digits_lem n k)
]

digit-is_plain : (k : ℕ) → k < 10 → is_plain (digit k) ≡ true
unfolding all_digits digit is_plain
digit-is_plain k lt = all_digits_lem 10 k refl lt

digits-is_plain :
    (f n : ℕ) (acc : String) → is_plain acc ≡ true → is_plain (digits_from f n acc) ≡ true
unfolding digits_from
digits-is_plain zero n acc h = h
digits-is_plain (suc f) n acc h = elim (Bool-cases (ltb n 10)) [
  | inl last ↦ rw last (is_plain-append (digit n) acc (digit-is_plain n (ground arith)) h)
  | inr more ↦ rw more (
      digits-is_plain f (n / 10) _
        (is_plain-append (digit (n % 10)) acc (digit-is_plain (n % 10) (omega arith)) h))
]

show_nat-is_plain : (n : ℕ) → is_plain (show_nat n) ≡ true
unfolding show_nat is_plain
show_nat-is_plain n = digits-is_plain (n + 1) n "" refl

pub show_int-is_plain : (n : ℤ) → is_plain (show_int n) ≡ true
unfolding show_int is_plain
show_int-is_plain (pos n) = show_nat-is_plain n
show_int-is_plain (negsuc n) =
    is_plain-append "-" (show_nat (n + 1)) refl (show_nat-is_plain (n + 1))
