-- ===== src/Base/Raising.antt =====
-- Values of code that may raise: `err e` is the exception, `ok a` the returned value.
use mathlib.Core.Path.{◌≡◌, refl}
use mathlib.Core.Bool.{Bool, true, false}
use po_c_sqlagent.Base.Tests.{if◌then◌else◌}

pub data Result (E : Type 0) (A : Type 0) : Type 0 where
  ok : A → Result E A
  err : E → Result E A

-- `if not test: raise x`.
abbrev pub guard : {E : Type 0} → (test : Bool) (x : E) → Result E (Unit {0})
guard false x = err x
guard true x = ok tt

infixl 5 ◌>>=◌ ◌>>◌
abbrev pub ◌>>=◌ : {E A B : Type 0} → Result E A → (A → Result E B) → Result E B
err x >>= next = err x
ok v >>= next = next v

abbrev pub ◌>>◌ : {E B : Type 0} → Result E (Unit {0}) → Result E B → Result E B
first >> rest = first >>= λ _. rest

-- What a successful run of a chain says of its parts.
pub >>=-eq-ok :
    {E A B : Type 0} (first : Result E A) (next : A → Result E B) {v : B}
    → (first >>= next) ≡ ok v
    → (u : A) × (first ≡ ok u) × (next u ≡ ok v)
>>=-eq-ok (err x) next run = cc
>>=-eq-ok (ok u) next run = (u, refl, run)

pub guard-eq-ok :
    {E B : Type 0} (t : Bool) (e : E) (k : Result E B) {b : B}
    → (guard t e >> k) ≡ ok b
    → (t ≡ true) × (k ≡ ok b)
guard-eq-ok true e k h = (refl, h)
guard-eq-ok false e k h = cc

pub ok-injective : {E A : Type 0} {a b : A} → ◌≡◌ {A = Result E A} (ok a) (ok b) → a ≡ b
ok-injective h = cc

pub if-eq-ok :
    {E A Q : Type 0} (b : Bool) (x y : Result E A) (v : A)
    → (x ≡ ok v → Q)
    → (y ≡ ok v → Q)
    → (if b then x else y) ≡ ok v
    → Q
if-eq-ok true x y v h k e = h e
if-eq-ok false x y v h k e = k e
