-- ===== src/Composer/Scan.antt =====
-- What a quoted identifier or text means to a SQL lexer: a reader of quoted tokens, written from
-- PostgreSQL's rule (a doubled quote stands for one, a single quote ends the token).
use Prim.Native.Char.{Char, code}
use Prim.Native.String.{[], ◌∷◌, ◌++◌}
use text.Mathlib.TextEquality.{Char-path}
use text.Mathlib.TextLemmas.{nil-append, cons-append, append_assoc}
use po_c_sqlagent.Base.{
  String, Bool, true, false, ◌≡◌, refl, Option, none, some, ◌==◌, ==_iff, if◌then◌else◌, Bool-cases,
  inl, inr, ap, sym, ◌∙◌,
}
use po_c_sqlagent.Text.{replace}
use po_c_sqlagent.Composer.Quote.{quote_ident, quote_text}

abbrev push : Char → Option (String × String) → Option (String × String)
push c none = none
push c (some (s, rest)) = some (c ∷ s, rest)

-- The content of a token after its opening quote, and what follows the token. The flag says that a
-- quote was just read.
scan : Char → Bool → String → Option (String × String)
scan q false [] = none
scan q true [] = some ("", "")
scan q false (c ∷ s) = if code c == code q then scan q true s else push c (scan q false s)
scan q true (c ∷ s) = if code c == code q then push q (scan q false s) else some ("", c ∷ s)

-- Reads one token in the quotes `q`.
pub scan_token : Char → String → Option (String × String)
unfolding scan
scan_token q [] = none
scan_token q (c ∷ s) = if code c == code q then scan q false s else none

-- The text does not go on with the quote.
abbrev pub Ends : Char → String → Type 0
Ends q [] = Unit
Ends q (c ∷ s) = (code c == code q) ≡ false

scan-closed : (q : Char) (rest : String) → Ends q rest → scan q true rest ≡ some ("", rest)
unfolding scan
scan-closed q [] h = refl
scan-closed q (c ∷ s) h = rw h

code_self : (q : Char) → (code q == code q) ≡ true
code_self q = (==_iff (code q) (code q)).1 refl

single-append : (c : Char) (t : String) → (c ∷ []) ++ t ≡ c ∷ t
single-append c t = cons-append c [] t ∙ ap (λ r. c ∷ r) (nil-append t)

doubled-append : (q : Char) (r t : String) → ((q ∷ (q ∷ [])) ++ r) ++ t ≡ q ∷ (q ∷ (r ++ t))
doubled-append q r t =
    append_assoc (q ∷ (q ∷ [])) r t
    ∙ (cons-append q (q ∷ []) (r ++ t) ∙ ap (λ u. q ∷ u) (single-append q (r ++ t)))

scan-doubled : (q : Char) (t : String) → scan q false (q ∷ (q ∷ t)) ≡ push q (scan q false t)
unfolding scan
scan-doubled q t = rw (code_self q)

scan-plain :
    (q c : Char) (t : String)
    → (code c == code q) ≡ false
    → scan q false (c ∷ t) ≡ push c (scan q false t)
unfolding scan
scan-plain q c t h = rw h

scan-replace :
    (q : Char) (s rest : String)
    → Ends q rest
    → scan q false (replace q (q ∷ (q ∷ [])) s ++ (q ∷ rest)) ≡ some (s, rest)
unfolding replace
scan-replace q [] rest h = rw nil-append (unfold scan in rw (code_self q) (scan-closed q rest h))
scan-replace q (c ∷ s) rest h = elim (Bool-cases (code c == code q)) [
  | inl same ↦
      rw (same, doubled-append, scan-doubled, scan-replace q s rest h)
        (ap (λ (d : Char). some (d ∷ s, rest)) (sym (Char-path c q ((==_iff _ _).0 same))))
  | inr other ↦ rw (other, cons-append, scan-plain q c _ other, scan-replace q s rest h) refl
]

-- A quoted name, whatever characters it holds, is one identifier token that reads back as the
-- name, and the text after it is untouched, unless that text begins with a double quote.
pub scan-quote_ident :
    (name rest : String)
    → Ends "\"" rest
    → scan_token "\"" (quote_ident name ++ rest) ≡ some (name, rest)
unfolding scan_token quote_ident
scan-quote_ident name rest h =
    rw (append_assoc, single-append, append_assoc, single-append) (scan-replace "\"" name rest h)

-- A text in the quotes of a literal, whatever characters it holds, is one token that reads back as
-- the text, and what follows it is untouched, unless that begins with a single quote.
pub scan-quote_text :
    (s rest : String) → Ends "'" rest → scan_token "'" (quote_text s ++ rest) ≡ some (s, rest)
unfolding scan_token quote_text
scan-quote_text s rest h =
    rw (append_assoc, single-append, append_assoc, single-append) (scan-replace "'" s rest h)
