-- ===== src/Analytical/Names.antt =====
-- compile_expression names only the columns that it is given.
use Prim.Native.String.{◌++◌}
use po_c_sqlagent.Base.{
  String, true, false, ◌≡◌, refl, List, [], ◌∷◌, All, In, all, ok, >>=-eq-ok, guard-eq-ok, if-eq-ok,
  ok-injective, subst, Bool-cases, inl, inr,
}
use po_c_sqlagent.Text.{◌=ₛ◌, member, lower, join}
use po_c_sqlagent.Text.Laws.{member→In}
use po_c_sqlagent.Python.{
  get_default, Value, null, bool, int, float, str, list, dict, Values, nil, cons, Fields, end,
  field, show, get?,
}
use po_c_sqlagent.Analytical.Terms.{
  quoted, is_identifier, ident, literal, compile_column, operator, binary_sql, divisor, when_sql,
  case_sql, trunc_sql, binary_ops, some_clause, unit_of,
}
use po_c_sqlagent.Analytical.Expressions.{
  compile_expression, compile_at, compile_binary, compile_case, compile_whens, compile_when_value,
  compile_when_items, compile_when, compile_else, compile_trunc,
}
use po_c_sqlagent.Analytical.Lexer.{
  is_plain, Piece, Piece-append, Piece-plain, Piece-quoted, Piece-text, show_int-is_plain,
  upper-is_plain_of_lower,
}
use po_c_sqlagent.Analytical.Floats.{PlainFloats, PlainItems, PlainFields}

-- An identifier that is one of the columns.
abbrev pub ColumnIn : List String → String → Type 0
ColumnIn available c = (is_identifier c ≡ true) × In c available

pub ident-quoted :
    (name sql : String) → ident name ≡ ok sql → (is_identifier name ≡ true) × (quoted name ≡ sql)
unfolding ident
ident-quoted name sql h = let (safe, h₁) = guard-eq-ok _ _ _ h in (safe, ok-injective h₁)

column-Piece :
    (available : List String) (name sql : String)
    → compile_column available name ≡ ok sql
    → Piece (ColumnIn available) sql
unfolding compile_column
column-Piece available name sql h =
    let (known, h₁) = guard-eq-ok (member name available) _ _ h in
    let (safe, e) = ident-quoted name sql h₁ in
    subst (Piece (ColumnIn available)) e
      (Piece-quoted name safe (safe, member→In name available known))

literal-Piece : {P : String → Type 0} (v : Value) → PlainFloats v → Piece P (literal v)
unfolding literal is_plain PlainFloats
literal-Piece null h = Piece-plain "NULL" refl
literal-Piece (bool true) h = Piece-plain "TRUE" refl
literal-Piece (bool false) h = Piece-plain "FALSE" refl
literal-Piece (int n) h = Piece-plain _ (show_int-is_plain n)
literal-Piece (float f) h = Piece-plain _ h
literal-Piece (str s) h = Piece-text (show (str s))
literal-Piece (list vs) h = Piece-text (show (list vs))
literal-Piece (dict fs) h = Piece-text (show (dict fs))

-- A fixed text, a piece and more.
pub Piece-cons :
    {P : String → Type 0} (p q : String) → is_plain p ≡ true → Piece P q → Piece P (p ++ q)
Piece-cons p q h k = Piece-append p q (Piece-plain p h) k

operator-is_plain : (fs : Fields) (op : String) → operator fs ≡ ok op → is_plain op ≡ true
unfolding operator all is_plain
operator-is_plain fs op h =
    let word = show (get_default "op" (str "") fs) in
    let (known, h₁) = guard-eq-ok (member (lower word) binary_ops) _ _ h in
    subst (λ s. is_plain s ≡ true) (ok-injective h₁)
      (upper-is_plain_of_lower word binary_ops refl known)

binary-Piece :
    {P : String → Type 0} (op left right : String)
    → is_plain op ≡ true
    → Piece P left
    → Piece P right
    → Piece P (binary_sql op left right)
unfolding binary_sql divisor is_plain
binary-Piece {P} op left right h l r =
    let d : Piece P (divisor op right) = elim (Bool-cases (op =ₛ "/")) [
      | inl e ↦
          rw e (Piece-cons "NULLIF(" _ refl (Piece-append right ", 0)" r (Piece-plain _ refl)))
      | inr n ↦ rw n r
    ] in
    Piece-cons "(" _ refl (
      Piece-append left _ l (
        Piece-cons " " _ refl (
          Piece-cons op _ h (
            Piece-cons " " _ refl (Piece-append (divisor op right) ")" d (Piece-plain ")" refl))))))

pub join-Piece :
    {P : String → Type 0} (sep : String) (parts : List String)
    → is_plain sep ≡ true
    → All (Piece P) parts
    → Piece P (join sep parts)
unfolding join is_plain
join-Piece sep [] h k = Piece-plain "" refl
join-Piece sep (x ∷ []) h k = k.0
join-Piece sep (x ∷ y ∷ ys) h k =
    Piece-append x _ k.0 (Piece-cons sep _ h (join-Piece sep (y ∷ ys) h k.1))

mutual
  unfolding compile_expression PlainFloats is_plain binary_sql when_sql case_sql trunc_sql

  expression-Piece :
      (available : List String) (v : Value) (sql : String)
      → PlainFloats v
      → compile_expression available v ≡ ok sql
      → Piece (ColumnIn available) sql
  expression-Piece available (str name) sql h e = column-Piece available name sql e
  expression-Piece available (dict (field kind value end)) sql h e =
      if-eq-ok (kind =ₛ "literal") _ _ sql
        (λ e₁. subst (Piece (ColumnIn available)) (ok-injective e₁) (literal-Piece value h.0))
        (if-eq-ok (kind =ₛ "column") _ _ sql (column-Piece available (show value) sql) (
          if-eq-ok (kind =ₛ "binary") _ _ sql (binary_Piece available value sql h.0) (
            if-eq-ok (kind =ₛ "case") _ _ sql (case_Piece available value sql h.0) (
              if-eq-ok (kind =ₛ "date_trunc") _ _ sql (trunc_Piece available value sql h.0)
                (λ e₁. absurd (cc e₁))))))
        e
  expression-Piece available _ sql h e = absurd (cc e)

  pub at_Piece :
      (available : List String) (key : String) (fs : Fields) (sql : String)
      → PlainFields fs
      → compile_at available key fs ≡ ok sql
      → Piece (ColumnIn available) sql
  at_Piece available key end sql h e = absurd (cc e)
  at_Piece available key (field j v fs) sql h e =
      if-eq-ok (j =ₛ key) _ _ sql (expression-Piece available v sql h.0)
        (at_Piece available key fs sql h.1) e

  binary_Piece :
      (available : List String) (v : Value) (sql : String)
      → PlainFloats v
      → compile_binary available v ≡ ok sql
      → Piece (ColumnIn available) sql
  binary_Piece available (dict fs) sql h e =
      let (op, e₁, r₁) = >>=-eq-ok (operator fs) _ e in
      let (left, e₂, r₂) = >>=-eq-ok (compile_at available "left" fs) _ r₁ in
      let (right, e₃, r₃) = >>=-eq-ok (compile_at available "right" fs) _ r₂ in
      subst (Piece (ColumnIn available)) (ok-injective r₃) (
        binary-Piece op left right (operator-is_plain fs op e₁)
          (at_Piece available "left" fs left h e₂) (at_Piece available "right" fs right h e₃))
  binary_Piece available _ sql h e = absurd (cc e)

  case_Piece :
      (available : List String) (v : Value) (sql : String)
      → PlainFloats v
      → compile_case available v ≡ ok sql
      → Piece (ColumnIn available) sql
  case_Piece available (dict fs) sql h e =
      let (clauses, e₁, r₁) = >>=-eq-ok (compile_whens available fs) _ e in
      let (some_when, r₂) = guard-eq-ok (some_clause clauses) _ _ r₁ in
      let (otherwise, e₃, r₃) = >>=-eq-ok (compile_else available fs) _ r₂ in
      subst (Piece (ColumnIn available)) (ok-injective r₃) (
        Piece-cons "CASE " _ refl (
          Piece-append (join " " clauses) _
            (join-Piece " " clauses refl (whens_Pieces available fs clauses h e₁))
            (Piece-cons " ELSE " _ refl (
              Piece-append otherwise _ (else_Piece available fs otherwise h e₃)
                (Piece-plain " END" refl)))))
  case_Piece available _ sql h e = absurd (cc e)

  whens_Pieces :
      (available : List String) (fs : Fields) (clauses : List String)
      → PlainFields fs
      → compile_whens available fs ≡ ok clauses
      → All (Piece (ColumnIn available)) clauses
  whens_Pieces available end clauses h e =
      subst (All (Piece (ColumnIn available))) (ok-injective e) tt
  whens_Pieces available (field j v fs) clauses h e =
      if-eq-ok (j =ₛ "when") _ _ clauses (value_Pieces available v clauses h.0)
        (whens_Pieces available fs clauses h.1) e

  value_Pieces :
      (available : List String) (v : Value) (clauses : List String)
      → PlainFloats v
      → compile_when_value available v ≡ ok clauses
      → All (Piece (ColumnIn available)) clauses
  value_Pieces available (list vs) clauses h e = items_Pieces available vs clauses h e
  value_Pieces available (str s) clauses h e =
      if-eq-ok (s =ₛ "") _ _ clauses
        (λ e₁. subst (All (Piece (ColumnIn available))) (ok-injective e₁) tt) (λ e₁. absurd (cc e₁))
        e
  value_Pieces available (dict end) clauses h e =
      subst (All (Piece (ColumnIn available))) (ok-injective e) tt
  value_Pieces available (dict (field k v fs)) clauses h e = absurd (cc e)
  value_Pieces available _ clauses h e = absurd (cc e)

  items_Pieces :
      (available : List String) (vs : Values) (clauses : List String)
      → PlainItems vs
      → compile_when_items available vs ≡ ok clauses
      → All (Piece (ColumnIn available)) clauses
  items_Pieces available nil clauses h e =
      subst (All (Piece (ColumnIn available))) (ok-injective e) tt
  items_Pieces available (cons v vs) clauses h e =
      let (one, e₁, r₁) = >>=-eq-ok (compile_when available v) _ e in
      let (more, e₂, r₂) = >>=-eq-ok (compile_when_items available vs) _ r₁ in
      subst (All (Piece (ColumnIn available))) {x = one ∷ more} (ok-injective r₂)
        (when_Piece available v one h.0 e₁, items_Pieces available vs more h.1 e₂)

  when_Piece :
      (available : List String) (v : Value) (sql : String)
      → PlainFloats v
      → compile_when available v ≡ ok sql
      → Piece (ColumnIn available) sql
  when_Piece available (dict fs) sql h e =
      let (condition, e₁, r₁) = >>=-eq-ok (compile_at available "if" fs) _ e in
      let (result, e₂, r₂) = >>=-eq-ok (compile_at available "then" fs) _ r₁ in
      subst (Piece (ColumnIn available)) (ok-injective r₂) (
        Piece-cons "WHEN " _ refl (
          Piece-append condition _ (at_Piece available "if" fs condition h e₁)
            (Piece-cons " THEN " _ refl (at_Piece available "then" fs result h e₂))))
  when_Piece available _ sql h e = absurd (cc e)

  else_Piece :
      (available : List String) (fs : Fields) (sql : String)
      → PlainFields fs
      → compile_else available fs ≡ ok sql
      → Piece (ColumnIn available) sql
  else_Piece available end sql h e =
      subst (Piece (ColumnIn available)) (ok-injective e) (Piece-plain "NULL" refl)
  else_Piece available (field j v fs) sql h e =
      if-eq-ok (j =ₛ "else") _ _ sql (expression-Piece available v sql h.0)
        (else_Piece available fs sql h.1) e

  trunc_Piece :
      (available : List String) (v : Value) (sql : String)
      → PlainFloats v
      → compile_trunc available v ≡ ok sql
      → Piece (ColumnIn available) sql
  trunc_Piece available (dict fs) sql h e =
      let (unit, e₁, r₁) = >>=-eq-ok (unit_of (get? "unit" fs)) _ e in
      let (value, e₂, r₂) = >>=-eq-ok (compile_at available "value" fs) _ r₁ in
      subst (Piece (ColumnIn available)) (ok-injective r₂) (
        Piece-cons "DATE_TRUNC(" _ refl (
          Piece-append _ _ (Piece-text unit) (
            Piece-cons ", " _ refl (
              Piece-append value _ (at_Piece available "value" fs value h e₂)
                (Piece-plain ")" refl)))))
  trunc_Piece available _ sql h e = absurd (cc e)
