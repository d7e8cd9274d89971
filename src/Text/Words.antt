-- ===== src/Text/Words.antt =====
-- A whole word in a text, and what the searches for words and prefixes say of it.
use Prim.Native.Char.{Char, code}
use Prim.Native.String.{[], ◌∷◌, ◌++◌}
use text.Mathlib.TextLemmas.{nil-append, cons-append}
use po_c_sqlagent.Base.{
  String, Bool, true, false, ◌≡◌, refl, sym, ◌∙◌, ap, subst, some, arith, ==_iff,
}
use text.Mathlib.TextEquality.{Char-path}
use po_c_sqlagent.Text.Search.{
  ◌=ₛ◌, is_word, begins_word, after_prefix, ends_there, word_from, contains_word, starts_with,
}

-- Whether a word character stands last; the flag is for an empty text.
unfoldable pub ends_word : Bool → String → Bool
unfolding is_word
ends_word inside [] = inside
ends_word inside (c ∷ s) = ends_word (is_word c) s

-- The text holds the word with no word character before it or after it.
pub record HasWord (w s : String) : Type 0 where
  pub before : String
  pub after : String
  pub text_is : s ≡ before ++ (w ++ after)
  pub starts : ends_word false before ≡ false
  pub ends : begins_word after ≡ false

after_prefix-append : (p s : String) → after_prefix p (p ++ s) ≡ some s
unfolding after_prefix
after_prefix-append [] s = rw (nil-append s) refl
after_prefix-append (c ∷ p) s =
    rw (cons-append c p s, (==_iff (code c) (code c)).1 refl) (after_prefix-append p s)

word_from-found :
    (c : Char) (w before after : String) (inside : Bool)
    → ends_word inside before ≡ false
    → begins_word after ≡ false
    → word_from (c ∷ w) inside (before ++ ((c ∷ w) ++ after)) ≡ true
unfolding word_from ends_word ends_there
word_from-found c w [] after inside h k =
    let found = after_prefix-append (c ∷ w) after in
    let found' : after_prefix (c ∷ w) (c ∷ (w ++ after)) ≡ some after =
      subst (λ t. after_prefix (c ∷ w) t ≡ some after) (cons-append c w after) found in
    rw (nil-append ((c ∷ w) ++ after), cons-append c w after, found', h, k) refl
word_from-found c w (d ∷ before) after inside h k =
    rw (cons-append d before ((c ∷ w) ++ after))
      (ground (arith, word_from-found c w before after (is_word d) h k))

-- A search that finds no word is right: the text does not hold it.
pub contains_word-HasWord :
    (w s : String) → (w =ₛ "") ≡ false → contains_word w s ≡ false → ¬ HasWord w s
unfolding contains_word
contains_word-HasWord [] s full h k = absurd (cc full)
contains_word-HasWord (c ∷ w) s full h k =
    let e = word_from-found c w k.before k.after false k.starts k.ends in
    let missed = subst (λ t. word_from (c ∷ w) false t ≡ false) k.text_is h in cc (e, missed)

pub starts_with-append : (s p : String) → starts_with s p ≡ true → (rest : String) × (s ≡ p ++ rest)
unfolding starts_with
starts_with-append s [] h = (s, sym (nil-append s))
starts_with-append [] (d ∷ p) h = absurd (cc h)
starts_with-append (c ∷ s) (d ∷ p) h =
    let (rest, e) = starts_with-append s p (ground arith) in
    let same : c ≡ d = Char-path c d ((==_iff (code c) (code d)).0 (ground arith)) in
    (rest, ap (λ x. x ∷ s) same ∙ (ap (λ t. d ∷ t) e ∙ sym (cons-append d p rest)))
