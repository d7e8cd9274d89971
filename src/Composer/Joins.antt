-- ===== src/Composer/Joins.antt =====
-- The loop of assemble_spec over the joins: the owner of a join column, and the chain of joins.
use po_c_sqlagent.Base.{
  String, true, ◌≡◌, refl, inl, inr, Option, none, some, List, [], ◌∷◌, map, In, ok, >>=-eq-ok,
  ok-injective, subst, arith, length, ap, suc, sym, Bool-cases,
}
use po_c_sqlagent.Python.{Value, dict, Fields}
use po_c_sqlagent.Composer.Check.{Schema, has_column, owner_of, sorted, first_owner, insert_sorted}
use po_c_sqlagent.Composer.Parts.{
  assemble_join, assemble_joins, join_on, owner_or_error, add, join_sides,
}
use po_c_sqlagent.Composer.Query.{TableOf, ColumnOf, ColumnOrStar, JoinPart, JoinsFrom, join_sql}
use po_c_sqlagent.Composer.Sound.{
  has_column→ColumnOf, check_table→TableOf, check_column→ColumnOrStar,
}

In-insert_sorted : (t x : String) (ys : List String) → In t (insert_sorted x ys) → In t (x ∷ ys)
unfolding insert_sorted
In-insert_sorted t x [] m = m
In-insert_sorted t x (y ∷ ys) m = ground (arith, In-insert_sorted t x ys)

In-sorted : (t : String) (xs : List String) → In t (sorted xs) → In t xs
unfolding sorted
In-sorted t [] m = elim m [ ]
In-sorted t (x ∷ xs) m = ground (arith, In-insert_sorted t x (sorted xs) m, In-sorted t xs)

first_owner-In :
    (schema : Schema) (c t : String) (ts : List String)
    → first_owner schema c ts ≡ some t
    → In t ts × (has_column schema t c ≡ true)
unfolding first_owner
first_owner-In schema c t [] h = absurd (cc h)
first_owner-In schema c t (u ∷ us) h = elim (Bool-cases (has_column schema u c)) [
  | inl found ↦ ground (arith, found)
  | inr other ↦ ground (arith, other, first_owner-In schema c t us)
]

-- A join's left table is one of the tables known so far and has the column.
owner_of-In :
    (schema : Schema) (known : List String) (c t : String)
    → owner_of schema known c ≡ some t
    → In t known × ColumnOf schema t c
unfolding owner_of
owner_of-In schema known c t h =
    let (m, found) = first_owner-In schema c t (sorted known) h in
    (In-sorted t known m, has_column→ColumnOf schema t c found)

owner_or_error-eq-ok :
    (o : Option String) (left : String) (entry : Fields) {t : String}
    → owner_or_error o left entry ≡ ok t
    → o ≡ some t
unfolding owner_or_error
owner_or_error-eq-ok (some t) left entry h = ground arith
owner_or_error-eq-ok none left entry h = absurd (cc h)

abbrev JoinFrom : Schema → List String → List String × String → Type 0
JoinFrom schema known p =
    (j : JoinPart) × ((add j.table known, join_sql j) ≡ p)
    × (In j.left_table known × ColumnOf schema j.left_table j.left)
    × (TableOf schema j.table × ColumnOrStar schema j.table j.right)

join_on-JoinFrom :
    (schema : Schema) (known : List String) (entry : Fields) (table left right : String)
    (p : List String × String)
    → join_on schema known entry table (left, right) ≡ ok p
    → JoinFrom schema known p
unfolding join_on
join_on-JoinFrom schema known entry table left right p h =
    let (u, table_known, h₁) = >>=-eq-ok _ _ h in
    let (owner, owned, h₂) = >>=-eq-ok _ _ h₁ in
    let (u', checked, h₃) = >>=-eq-ok _ _ h₂ in
    (
      record { table = table; left_table = owner; left = left; right = right },
      ok-injective h₃,
      owner_of-In schema known left owner (owner_or_error-eq-ok _ left entry owned),
      (
        check_table→TableOf schema table table_known,
        check_column→ColumnOrStar schema table right checked,
      ),
    )

join-JoinFrom :
    (schema : Schema) (known : List String) (v : Value) (p : List String × String)
    → assemble_join schema known v ≡ ok p
    → JoinFrom schema known p
unfolding assemble_join
join-JoinFrom schema known (dict entry) p h =
    join_on-JoinFrom schema known entry _ (join_sides entry).0 (join_sides entry).1 p h
join-JoinFrom schema known _ p h = absurd (cc h)

pub joins-JoinsFrom :
    (schema : Schema) (known : List String) (vs : List Value) (p : List String × List String)
    → assemble_joins schema known vs ≡ ok p
    → (js : List JoinPart) × (map join_sql js ≡ p.1)
      × JoinsFrom schema known js p.0
      × (length js ≡ length vs)
unfolding assemble_joins
joins-JoinsFrom schema known [] p h =
    let e = ok-injective h in
    (
      [],
      ap (λ (q : List String × List String). q.1) e,
      ap (λ (q : List String × List String). q.0) e,
      refl,
    )
joins-JoinsFrom schema known (v ∷ vs) p h =
    let (one, assembled, h₁) = >>=-eq-ok _ _ h in
    let (rest, more, h₂) = >>=-eq-ok _ _ h₁ in
    let (j, shown, left_sound, right_sound) = join-JoinFrom schema known v one assembled in
    let (js, all_shown, chain, counted) = joins-JoinsFrom schema one.0 vs rest more in
    let known' : one.0 ≡ add j.table known = sym (ap (λ (q : List String × String). q.0) shown) in
    let last : rest.0 ≡ p.0 = ap (λ (q : List String × List String). q.0) (ok-injective h₂) in
    (
      j ∷ js,
      cc (
        ap (λ (q : List String × String). q.1) shown,
        all_shown,
        ap (λ (q : List String × List String). q.1) (ok-injective h₂),
      ),
      (
        left_sound,
        right_sound,
        subst (λ l. JoinsFrom schema (add j.table known) js l) last
            (subst (λ k. JoinsFrom schema k js rest.0) known' chain),
      ),
      ap suc counted,
    )
