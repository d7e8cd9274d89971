-- ===== src/Analytical/Lexer/Pieces.antt =====
-- How the lexer reads a text that is put together of pieces.
use Prim.Native.Char.{Char, code}
use Prim.Native.String.{[], ◌∷◌, ◌++◌}
use text.Mathlib.TextLemmas.{nil-append, cons-append, append_assoc, append-nil}
use mathlib.Core.List.{append-nil as all_names}
use po_c_sqlagent.Base.{
  String, Bool, true, false, not, ◌&&◌, ◌≡◌, refl, Option, none, some, List, ◌++◌ as append, All,
  ◌==◌, arith, sym, ap, ◌∙◌, Bool-cases, inl, inr,
}
use po_c_sqlagent.Text.{replace}
use po_c_sqlagent.Composer.{quote_text}
use po_c_sqlagent.Analytical.Lexer.Defs.{
  outside, within_text, within_name, next, emit, push, names_from, quoted_names, is_plain, is_inert,
  NamesAre,
}
use po_c_sqlagent.Analytical.Terms.{quoted, is_identifier, ident_tail, is_ident_start}

-- The names of the piece come before those of what follows it, whatever that is.
abbrev pub push_all : List String → Option (List String) → Option (List String)
push_all names none = none
push_all names (some more) = some (append names more)

abbrev pub Piece : (String → Type 0) → String → Type 0
Piece P p =
    (names : List String) × All P names
    × ((rest : String) → names_from outside (p ++ rest) ≡ push_all names (names_from outside rest))

push_all-nil : (o : Option (List String)) → push_all List.[] o ≡ o
push_all-nil none = refl
push_all-nil (some names) = refl

push_all-append :
    (a b : List String) (o : Option (List String))
    → push_all a (push_all b o) ≡ push_all (append a b) o
push_all-append a b none = refl
push_all-append List.[] b (some names) = refl
push_all-append (List.◌∷◌ x a) b (some names) = cc (push_all-append a b (some names))

pub All-append : (P : String → Type 0) (a b : List String) → All P a → All P b → All P (append a b)
All-append P List.[] b h k = k
All-append P (List.◌∷◌ x a) b h k = (h.0, All-append P a b h.1 k)

pub Piece-append : {P : String → Type 0} (p q : String) → Piece P p → Piece P q → Piece P (p ++ q)
Piece-append {P} p q (a, ha, ea) (b, hb, eb) = (
  append a b,
  All-append P a b ha hb,
  λ rest. rw (append_assoc, ea, eb) (push_all-append a b (names_from outside rest)),
)

step-inert :
    (c : Char) (s : String) → is_inert c ≡ true → names_from outside (c ∷ s) ≡ names_from outside s
unfolding names_from next emit
step-inert c s h = ground arith

pub plain-step :
    (p rest : String) → is_plain p ≡ true → names_from outside (p ++ rest) ≡ names_from outside rest
unfolding is_plain
plain-step [] rest h = rw nil-append
plain-step (c ∷ p) rest h =
    rw (cons-append, step-inert c (p ++ rest) (ground arith), plain-step p rest (ground arith)) refl

-- A text without quotes and semicolons adds no name.
pub Piece-plain : {P : String → Type 0} (p : String) → is_plain p ≡ true → Piece P p
Piece-plain p h =
    (List.[], tt, λ rest. plain-step p rest h ∙ sym (push_all-nil (names_from outside rest)))

-- A name without a double quote, in double quotes.
is_unquoted : String → Bool
is_unquoted [] = true
is_unquoted (c ∷ s) = not (code c == 34) && is_unquoted s

tail-is_unquoted : (s : String) → ident_tail s ≡ true → is_unquoted s ≡ true
unfolding is_unquoted ident_tail is_ident_start
tail-is_unquoted [] h = refl
tail-is_unquoted (c ∷ s) h = ground (arith, tail-is_unquoted s)

identifier-is_unquoted : (s : String) → is_identifier s ≡ true → is_unquoted s ≡ true
unfolding is_identifier is_unquoted is_ident_start
identifier-is_unquoted [] h = cc
identifier-is_unquoted (c ∷ s) h = ground (arith, tail-is_unquoted s)

name-closed :
    (s rest : String) → names_from (within_name s) ("\"" ++ rest) ≡ push s (names_from outside rest)
unfolding names_from next emit
name-closed s rest = rw (cons-append "\"" [] rest, nil-append) refl

name-step :
    (acc s : String) (c : Char)
    → (code c == 34) ≡ false
    → names_from (within_name acc) (c ∷ s) ≡ names_from (within_name (acc ++ (c ∷ []))) s
unfolding names_from next emit
name-step acc s c h = ground arith

single-append : (c : Char) (t : String) → (c ∷ []) ++ t ≡ c ∷ t
single-append c t = cons-append c [] t ∙ ap (λ r. c ∷ r) (nil-append t)

name-scanned :
    (acc s rest : String)
    → is_unquoted s ≡ true
    → names_from (within_name acc) (s ++ ("\"" ++ rest)) ≡ push (acc ++ s) (names_from outside rest)
unfolding is_unquoted
name-scanned acc [] rest h = rw (nil-append, append-nil) (name-closed acc rest)
name-scanned acc (c ∷ s) rest h =
    rw
      (
        cons-append,
        name-step acc (s ++ ("\"" ++ rest)) c (ground arith),
        name-scanned (acc ++ (c ∷ [])) s rest (ground arith),
        append_assoc,
        single-append,
      )
      refl

opened : (t : String) → names_from outside ("\"" ++ t) ≡ names_from (within_name "") t
unfolding names_from next emit
opened t = rw (cons-append "\"" [] t, nil-append) refl

push-push_all : (s : String) (o : Option (List String)) → push s o ≡ push_all (List.◌∷◌ s List.[]) o
unfolding push
push-push_all s none = refl
push-push_all s (some names) = refl

-- An identifier in double quotes is one name.
pub Piece-quoted :
    {P : String → Type 0} (s : String) → is_identifier s ≡ true → P s → Piece P (quoted s)
unfolding quoted
Piece-quoted s h p = (
  List.◌∷◌ s List.[],
  (p, tt),
  λ rest.
      rw
        (
          append_assoc "\"" (s ++ "\"") rest,
          append_assoc s "\"" rest,
          opened,
          name-scanned "" s rest (identifier-is_unquoted s h),
          nil-append,
        )
        (push-push_all s (names_from outside rest)),
)

-- A text in single quotes, whatever it holds.
text_opened : (t : String) → names_from outside ("'" ++ t) ≡ names_from within_text t
unfolding names_from next emit
text_opened t = rw (cons-append "'" [] t, nil-append) refl

text-closed : (t : String) → names_from within_text ("'" ++ t) ≡ names_from outside t
unfolding names_from next emit
text-closed t = rw (cons-append "'" [] t, nil-append) refl

text-doubled : (t : String) → names_from within_text ("''" ++ t) ≡ names_from within_text t
text-doubled t = rw (← append_assoc "'" "'" t) at (text-closed ("'" ++ t) ∙ text_opened t)

text-step :
    (c : Char) (s : String)
    → (code c == 39) ≡ false
    → names_from within_text (c ∷ s) ≡ names_from within_text s
unfolding names_from next emit
text-step c s h = ground arith

text-scanned :
    (s rest : String)
    → names_from within_text (replace "'" "''" s ++ ("'" ++ rest)) ≡ names_from outside rest
unfolding replace
text-scanned [] rest = rw nil-append (text-closed rest)
text-scanned (c ∷ s) rest = elim (Bool-cases (code c == 39)) [
  | inl same ↦ rw (same, append_assoc, text-doubled, text-scanned s rest) refl
  | inr other ↦ rw (other, cons-append, text-step c _ other, text-scanned s rest) refl
]

-- It adds no name, and the lexer is outside quotes after it.
pub Piece-text : {P : String → Type 0} (s : String) → Piece P (quote_text s)
unfolding quote_text
Piece-text s = (
  List.[],
  tt,
  λ rest.
      rw
        (
          append_assoc "'" (replace "'" "''" s ++ "'") rest,
          append_assoc (replace "'" "''" s) "'" rest,
          text_opened,
          text-scanned,
        )
        (sym (push_all-nil (names_from outside rest))),
)

-- With nothing after it, a piece is a statement.
pub Piece-NamesAre : {P : String → Type 0} (p : String) → Piece P p → NamesAre P p
unfolding quoted_names names_from
Piece-NamesAre p (names, h, e) = (names, rw (append-nil, all_names) at (e ""), h)
