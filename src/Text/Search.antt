-- ===== src/Text/Search.antt =====
-- Tests on texts: equality, membership, prefixes, substrings and words.
use Prim.Native.Char.{Char, code}
use Prim.Native.String.{[], ◌∷◌}
use text.Mathlib.Text.{◌==◌ as eq}
use po_c_sqlagent.Base.{
  ℕ, String, Bool, true, false, ◌&&◌, ◌||◌, not, Option, none, some, if◌then◌else◌, List, leb, ◌==◌,
  any,
}

infix 50 ◌=ₛ◌
abbrev pub ◌=ₛ◌ : String → String → Bool
s =ₛ t = eq s t

-- `x in names`, for a list, a tuple or a set of texts.
unfoldable pub member : String → List String → Bool
member x List.[] = false
member x (List.◌∷◌ y ys) = y =ₛ x || member x ys

-- `s.startswith(p)`.
unfoldable pub starts_with : String → String → Bool
starts_with s [] = true
starts_with [] (d ∷ p) = false
starts_with (c ∷ s) (d ∷ p) = code c == code d && starts_with s p

-- `p in s`.
unfoldable pub contains : String → String → Bool
unfolding starts_with
contains p [] = starts_with [] p
contains p (c ∷ s) = starts_with (c ∷ s) p || contains p s

-- `any(p in s for p in ps)`.
unfoldable pub contains_any : List String → String → Bool
unfolding any contains
contains_any ps s = any (λ p. contains p s) ps

-- `any(s.startswith(p) for p in ps)`.
unfoldable pub starts_with_any : List String → String → Bool
unfolding any starts_with
starts_with_any ps s = any (λ p. starts_with s p) ps

abbrev within : ℕ → ℕ → ℕ → Bool
within lo hi n = leb lo n && leb n hi

-- `\s` of `re`, and what `str.strip` removes.
unfoldable pub is_space : Char → Bool
is_space c =
    let n = code c in
    within 9 13 n
    || within 28 32 n
    || n == 133
    || n == 160
    || n == 5760
    || within 8192 8202 n
    || within 8232 8233 n
    || n == 8239
    || n == 8287
    || n == 12288

unfoldable pub is_digit : Char → Bool
is_digit c = within 48 57 (code c)

unfoldable pub is_ascii_letter : Char → Bool
is_ascii_letter c = within 65 90 (code c) || within 97 122 (code c)

-- `\w` of `re`.
unfoldable pub is_word : Char → Bool
unfolding is_digit is_ascii_letter
is_word c =
    let n = code c in
    is_digit c || is_ascii_letter c || n == 95 || within 1024 1153 n || within 1162 1327 n

-- Whether a text begins with a word character.
unfoldable pub begins_word : String → Bool
unfolding is_word
begins_word [] = false
begins_word (c ∷ s) = is_word c

-- What follows a prefix.
unfoldable pub after_prefix : String → String → Option String
after_prefix [] s = some s
after_prefix (p ∷ ps) [] = none
after_prefix (p ∷ ps) (c ∷ s) =
    let rest = after_prefix ps s in if code p == code c then rest else none

unfoldable pub ends_there : Option String → Bool
unfolding begins_word
ends_there none = false
ends_there (some rest) = not (begins_word rest)

-- `re.search(r"\b" + p + r"\b", s)` for a `p` that begins and ends with word characters; the flag
-- says that a word character stands before `s`.
unfoldable pub word_from : String → Bool → String → Bool
unfolding is_word after_prefix ends_there
word_from p inside [] = false
word_from p inside (c ∷ s) =
    (not inside && ends_there (after_prefix p (c ∷ s))) || word_from p (is_word c) s

unfoldable pub contains_word : String → String → Bool
unfolding word_from
contains_word p s = word_from p false s

-- `s.endswith(p)`.
unfoldable pub ends_with : String → String → Bool
ends_with [] p = eq [] p
ends_with (c ∷ s) p = eq (c ∷ s) p || ends_with s p
