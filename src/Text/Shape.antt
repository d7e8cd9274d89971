-- ===== src/Text/Shape.antt =====
-- Operations that build texts: case, replacement, joining, trimming and splitting.
use Prim.Native.Nat.{zero, suc}
use Prim.Native.Char.{Char, code}
use Prim.Native.String.{[], ◌∷◌, ◌++◌, slice}
use po_c_sqlagent.Base.{ℕ, ◌+◌, ◌/◌, ◌%◌, String, Bool, true, false, List, ◌==◌, ltb, if◌then◌else◌}
use po_c_sqlagent.Text.Search.{is_word}

-- The character at the place of `c` in the first text, taken from the second; else `c`.
unfoldable pub translate : String → String → Char → Char
translate (x ∷ xs) (y ∷ ys) c = if code x == code c then y else translate xs ys c
translate _ _ c = c

unfoldable pub map_chars : (Char → Char) → String → String
map_chars f [] = []
map_chars f (c ∷ s) = f c ∷ map_chars f s

abbrev pub upper_letters : String
upper_letters = "ABCDEFGHIJKLMNOPQRSTUVWXYZАБВГДЕЖЗИЙКЛМНОПРСТУФХЦЧШЩЪЫЬЭЮЯЁ"

abbrev pub lower_letters : String
lower_letters = "abcdefghijklmnopqrstuvwxyzабвгдежзийклмнопрстуфхцчшщъыьэюяё"

-- `s.lower()` and `s.upper()`.
unfoldable pub lower : String → String
unfolding map_chars translate
lower s = map_chars (translate upper_letters lower_letters) s

unfoldable pub upper : String → String
unfolding map_chars translate
upper s = map_chars (translate lower_letters upper_letters) s

-- `s.replace(c, by)` for a text `c` of one character.
unfoldable pub replace : Char → String → String → String
replace q by [] = []
replace q by (c ∷ s) = if code c == code q then by ++ replace q by s else c ∷ replace q by s

-- `sep.join(parts)`.
unfoldable pub join : String → List String → String
join sep List.[] = []
join sep (List.◌∷◌ x List.[]) = x
join sep (List.◌∷◌ x (List.◌∷◌ y ys)) = x ++ (sep ++ join sep (List.◌∷◌ y ys))

-- `s[:n]`.
unfoldable pub truncate : ℕ → String → String
truncate zero s = []
truncate (suc n) [] = []
truncate (suc n) (c ∷ s) = c ∷ truncate n s

-- `s.lstrip()` and `s.rstrip()` for a class of characters.
unfoldable pub lstrip : (Char → Bool) → String → String
lstrip p [] = []
lstrip p (c ∷ s) = if p c then lstrip p s else c ∷ s

-- The rest of a text, stripped, decides whether a stripped character stays.
keep_before : (Char → Bool) → Char → String → String
keep_before p c [] = if p c then [] else c ∷ []
keep_before p c (d ∷ s) = c ∷ d ∷ s

unfoldable pub rstrip : (Char → Bool) → String → String
unfolding keep_before
rstrip p [] = []
rstrip p (c ∷ s) = keep_before p c (rstrip p s)

unfoldable pub strip : (Char → Bool) → String → String
unfolding lstrip rstrip
strip p s = rstrip p (lstrip p s)

-- `re.sub(r"\W+", "_", s)`: a run of other characters becomes one underscore. The flag says that
-- the character before belongs to such a run.
squeeze : Bool → String → String
squeeze inside [] = []
squeeze inside (c ∷ s) =
    if is_word c
    then c ∷ squeeze false s
    else (if inside then squeeze true s else "_" ++ squeeze true s)

unfoldable pub sub_non_words : String → String
unfolding squeeze is_word
sub_non_words s = squeeze false s

-- `s.split(c)[-1]`: what follows the last `c`.
after_last_from : Char → String → String → String
after_last_from q acc [] = acc
after_last_from q acc (c ∷ s) = after_last_from q (if code c == code q then s else acc) s

unfoldable pub after_last : Char → String → String
unfolding after_last_from
after_last q s = after_last_from q s s

-- The decimal digits of a number, `str(n)`. The fuel is one more than the number, which is enough:
-- each round divides it by ten.
unfoldable pub digit : ℕ → String
digit n = slice "0123456789" n (n + 1)

unfoldable pub digits_from : ℕ → ℕ → String → String
digits_from zero n acc = acc
digits_from (suc f) n acc =
    let more = digits_from f (n / 10) (digit (n % 10) ++ acc) in
    if ltb n 10 then digit n ++ acc else more

unfoldable pub show_nat : ℕ → String
unfolding digits_from digit
show_nat n = digits_from (n + 1) n []

-- `s.split(c, 1)[0]`: what stands before the first `c`.
unfoldable pub before_first : Char → String → String
before_first q [] = []
before_first q (c ∷ s) = if code c == code q then [] else c ∷ before_first q s

-- `s.split(c)`; the first argument is the part read so far.
split_from : String → Char → String → List String
split_from part q [] = List.◌∷◌ part List.[]
split_from part q (c ∷ s) =
    let rest = split_from "" q s in
    let more = split_from (part ++ (c ∷ [])) q s in
    if code c == code q then List.◌∷◌ part rest else more

unfoldable pub split : Char → String → List String
unfolding split_from
split q s = split_from "" q s
