-- ===== src/Analytical/Scoped/Inputs.antt =====
-- The parts that several kinds of stages share.
use po_c_sqlagent.Base.{
  String, ◌≡◌, refl, inl, inr, List, [], ◌∷◌, All, In, ok, some, Option-cases, >>=-eq-ok,
  guard-eq-ok, ok-injective, subst, arith,
}
use po_c_sqlagent.Python.{Fields}
use po_c_sqlagent.Composer.{Schema, columns?, has_table, text_or}
use po_c_sqlagent.Analytical.Terms.{ident}
use po_c_sqlagent.Analytical.Tables.{Stages, item}
use po_c_sqlagent.Analytical.Stages.{idents, input}
use po_c_sqlagent.Analytical.Lexer.{Piece, Piece-quoted}
use po_c_sqlagent.Analytical.Names.{ident-quoted, ColumnIn}
use po_c_sqlagent.Analytical.Scoped.Defs.{InScope, stage_column, Name}

pub item-found :
    (k : String) (d : Stages) (v : List String) → item k d ≡ ok v → columns? k d ≡ some v
unfolding item
item-found k d v h = elim (Option-cases (columns? k d)) [
  | inl e ↦ absurd (ground (arith, e, h))
  | inr (cols, e) ↦ ground (arith, e, h)
]

-- What a stage reads is a stage before it, with its columns.
pub input-found :
    (fs : Fields) (outputs : Stages) (source : String) (columns : List String)
    → input fs outputs ≡ ok (source, columns)
    → columns? source outputs ≡ some columns
unfolding input
input-found fs outputs source columns h =
    let name = text_or "input" "" fs in
    let (known, h₁) = guard-eq-ok (has_table outputs name) _ _ h in
    let (cols, e, h₂) = >>=-eq-ok (item name outputs) _ h₁ in
    let same : ◌≡◌ {A = String × List String} (name, cols) (source, columns) = ok-injective h₂ in
    subst (λ (p : String × List String). columns? p.0 outputs ≡ some p.1) same
      (item-found name outputs cols e)

abbrev weaken :
    {P Q : String → Type 0} (names : List String)
    → ((n : String) → P n → Q n)
    → All P names
    → All Q names
weaken [] f h = tt
weaken (n ∷ ns) f h = (f n h.0, weaken ns f h.1)

pub Piece-weaken :
    {P Q : String → Type 0} (p : String) → ((n : String) → P n → Q n) → Piece P p → Piece Q p
Piece-weaken p f (names, h, e) = (names, weaken names f h, e)

-- An expression over the columns of an earlier stage.
pub Piece-earlier :
    (schema : Schema) (outputs : Stages) (columns cols : List String) (s sql : String)
    → columns? s outputs ≡ some cols
    → Piece (ColumnIn cols) sql
    → Piece (Name schema outputs columns) sql
Piece-earlier schema outputs columns cols s sql e p =
    Piece-weaken sql (λ n h. (h.0, stage_column s (cols, e, h.1))) p

pub ident-Piece :
    (schema : Schema) (outputs : Stages) (columns : List String) (name sql : String)
    → InScope schema outputs columns name
    → ident name ≡ ok sql
    → Piece (Name schema outputs columns) sql
ident-Piece schema outputs columns name sql scope e =
    let (safe, q) = ident-quoted name sql e in
    subst (Piece (Name schema outputs columns)) q (Piece-quoted name safe (safe, scope))

pub idents-Pieces :
    (schema : Schema) (outputs : Stages) (columns names sqls : List String)
    → ((n : String) → In n names → InScope schema outputs columns n)
    → idents names ≡ ok sqls
    → All (Piece (Name schema outputs columns)) sqls
unfolding idents
idents-Pieces schema outputs columns [] sqls scope e =
    subst (All (Piece (Name schema outputs columns))) (ok-injective e) tt
idents-Pieces schema outputs columns (x ∷ xs) sqls scope e =
    let (one, e₁, r₁) = >>=-eq-ok (ident x) _ e in
    let (more, e₂, r₂) = >>=-eq-ok (idents xs) _ r₁ in
    subst (All (Piece (Name schema outputs columns))) {x = one ∷ more} (ok-injective r₂) (
      ident-Piece schema outputs columns x one (scope x (inl refl)) e₁,
      idents-Pieces schema outputs columns xs more (λ n m. scope n (inr m)) e₂,
    )
