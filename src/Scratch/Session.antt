-- ===== src/Scratch/Session.antt =====
-- sqlagent/scratch.py: one connection. A run of statements keeps what it has sent; what the server
-- answers to a statement, given those before it, is a parameter.
use po_c_sqlagent.Base.{ℕ, String, List, [], ◌∷◌, ◌++◌, ok, err}
use po_c_sqlagent.Python.{Py}
use po_c_sqlagent.Database.{Cell}

-- The answers of the server.
pub record Server : Type 0 where
  pub execute : List String → String → Py (Unit {0})
  pub number : List String → String → Py ℕ
  pub fetch : List String → String → ℕ → Py (List String × List (List Cell))

abbrev pub Io : Type 0 → Type 0
Io A = List String → List String × Py A

abbrev pub after : {A B : Type 0} → List String × Py A → (A → Io B) → List String × Py B
after (sent, ok a) f = f a sent
after (sent, err e) f = (sent, err e)

infixl 5 ◌>>=◌ ◌>>◌
abbrev pub ◌>>=◌ : {A B : Type 0} → Io A → (A → Io B) → Io B
◌>>=◌ m f sent = after (m sent) f

abbrev pub ◌>>◌ : {B : Type 0} → Io (Unit {0}) → Io B → Io B
m >> k = m >>= λ _. k

abbrev pub return : {A : Type 0} → A → Io A
return a sent = (sent, ok a)

-- Code that may raise and sends nothing.
abbrev pub lift : {A : Type 0} → Py A → Io A
lift r sent = (sent, r)

-- A statement, and what the server makes of it.
abbrev pub send : {A : Type 0} → (List String → String → Py A) → String → Io A
send answer sql sent = (sent ++ (sql ∷ []), answer sent sql)
