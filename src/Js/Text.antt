-- ===== src/Js/Text.antt =====
-- JavaScript strings, as lists of UTF-16 code units.
use Prim.Native.Char.{code}
use Prim.Native.String.{String}
use quantpaca.Base.{
  ℕ, ◌+◌, ◌-◌, ◌≡◌, refl, Bool, true, false, not, Option, none, some, ◌&&◌, ◌||◌, List, [], ◌∷◌,
  ◌++◌, arith, leb, ltb, ◌==◌, if◌then◌else◌, any,
}
use mathlib.Core.List.{reverse}
pub mod Sorted

abbrev pub Text : Type 0
Text = List ℕ

codes : String → Text
codes String.[] = []
codes (String.◌∷◌ c s) = code c ∷ codes s

-- A literal of the source, in ASCII.
unfoldable pub text : String → Text
unfolding codes
text s = codes s

-- `===` on strings.
unfoldable pub text_eq : Text → Text → Bool
text_eq [] [] = true
text_eq [] (b ∷ t) = false
text_eq (a ∷ s) [] = false
text_eq (a ∷ s) (b ∷ t) = a == b && text_eq s t

pub text_eq_sound : (s t : Text) → text_eq s t ≡ true → s ≡ t
unfolding text_eq
text_eq_sound [] [] h = refl
text_eq_sound [] (b ∷ t) h = cc
text_eq_sound (a ∷ s) [] h = cc
text_eq_sound (a ∷ s) (b ∷ t) h = ground (arith, text_eq_sound s t)

pub text_eq_refl : (s : Text) → text_eq s s ≡ true
unfolding text_eq
text_eq_refl [] = refl
text_eq_refl (a ∷ s) = ground (arith, text_eq_refl s)

-- `list.includes(s)`
unfoldable pub includes : List Text → Text → Bool
unfolding text_eq
includes l s = any (λ t. text_eq t s) l

-- A string as a condition: only the empty one is falsy.
unfoldable pub filled : Text → Bool
filled [] = false
filled (_ ∷ _) = true

-- White space and line ends, as `trim` removes them.
is_space : ℕ → Bool
is_space c =
    (leb 9 c && leb c 13)
    || c == 32
    || c == 0xa0
    || c == 0x1680
    || (leb 0x2000 c && leb c 0x200a)
    || c == 0x2028
    || c == 0x2029
    || c == 0x202f
    || c == 0x205f
    || c == 0x3000
    || c == 0xfeff

trim_start : Text → Text
trim_start [] = []
trim_start (c ∷ s) = let rest = trim_start s in if is_space c then rest else c ∷ s

unfoldable pub trim : Text → Text
unfolding is_space trim_start
trim s = reverse (trim_start (reverse (trim_start s)))

-- The lower case of one unit; the characters outside ASCII that have a lower case inside it are the
-- Kelvin sign and the dotted I.
lower_unit : ℕ → Text
lower_unit c =
    if leb b'A' c && leb c b'Z'
    then (c + 32) ∷ []
    else if c == 0x212a
    then b'k' ∷ []
    else if c == 0x130
    then b'i' ∷ 0x307 ∷ []
    else c ∷ []

-- `toLowerCase`, up to characters outside ASCII whose lower case is outside it too: these stay,
-- and no text that the program compares with holds one.
unfoldable pub to_lower : Text → Text
unfolding lower_unit
to_lower [] = []
to_lower (c ∷ s) = lower_unit c ++ to_lower s

-- The upper case of one unit; the characters outside ASCII that have an upper case inside it are
-- the dotless i, the long s, the sharp s and the ligatures.
upper_unit : ℕ → Text
upper_unit c =
    if leb b'a' c && leb c b'z'
    then (c - 32) ∷ []
    else if c == 0x131
    then b'I' ∷ []
    else if c == 0x17f
    then b'S' ∷ []
    else if c == 0xdf
    then b'S' ∷ b'S' ∷ []
    else if c == 0xfb00
    then b'F' ∷ b'F' ∷ []
    else if c == 0xfb01
    then b'F' ∷ b'I' ∷ []
    else if c == 0xfb02
    then b'F' ∷ b'L' ∷ []
    else if c == 0xfb03
    then b'F' ∷ b'F' ∷ b'I' ∷ []
    else if c == 0xfb04
    then b'F' ∷ b'F' ∷ b'L' ∷ []
    else if c == 0xfb05 || c == 0xfb06
    then b'S' ∷ b'T' ∷ []
    else c ∷ []

-- `toUpperCase`, up to characters outside ASCII whose upper case is outside it too.
unfoldable pub to_upper : Text → Text
unfolding upper_unit
to_upper [] = []
to_upper (c ∷ s) = upper_unit c ++ to_upper s

-- `s.startsWith(prefix)`, `s.includes(part)` and `s.endsWith(suffix)`
unfoldable pub starts_with : Text → Text → Bool
starts_with s [] = true
starts_with [] (p ∷ ps) = false
starts_with (c ∷ s) (p ∷ ps) = c == p && starts_with s ps

unfoldable pub contains : Text → Text → Bool
unfolding starts_with
contains [] part = starts_with [] part
contains (c ∷ s) part = starts_with (c ∷ s) part || contains s part

unfoldable pub ends_with : Text → Text → Bool
unfolding starts_with
ends_with s suffix = starts_with (reverse s) (reverse suffix)

-- `s.split(/\s+/).filter(Boolean).length`: the runs of other characters than white space.
words_after : Bool → Text → ℕ
unfolding is_space
words_after inside [] = 0
words_after inside (c ∷ s) =
    let blank = is_space c in (if blank || inside then 0 else 1) + words_after (not blank) s

unfoldable pub word_count : Text → ℕ
unfolding words_after
word_count s = words_after false s

-- `parts.join(separator)`
unfoldable pub join : Text → List Text → Text
join separator [] = []
join separator (s ∷ []) = s
join separator (s ∷ t ∷ ts) = s ++ (separator ++ join separator (t ∷ ts))

-- `/\b(w1|w2)\b/.test(s)` for words of letters: one of them stands between other characters than
-- letters, digits and the underscore.
is_word_unit : ℕ → Bool
is_word_unit c =
    (leb b'a' c && leb c b'z')
    || (leb b'A' c && leb c b'Z')
    || (leb b'0' c && leb c b'9')
    || c == b'_'

-- The text after a prefix of it, `none` where it has another one.
unfoldable pub after_prefix : Text → Text → Option Text
after_prefix [] s = some s
after_prefix (p ∷ ps) [] = none
after_prefix (p ∷ ps) (c ∷ s) = let rest = after_prefix ps s in if p == c then rest else none

starts_other : Text → Bool
unfolding is_word_unit
starts_other [] = true
starts_other (c ∷ s) = not (is_word_unit c)

word_here : Text → Text → Bool
unfolding after_prefix starts_other
word_here s word = elim (after_prefix word s) [ none ↦ false | some rest ↦ starts_other rest ]

words_from : List Text → Bool → Text → Bool
unfolding word_here is_word_unit
words_from words boundary [] = false
words_from words boundary (c ∷ s) =
    (boundary && any (word_here (c ∷ s)) words) || words_from words (not (is_word_unit c)) s

unfoldable pub has_word : List Text → Text → Bool
unfolding words_from
has_word words s = words_from words true s

-- The order of texts, by units, and `texts.sort()`.
unfoldable pub text_lt : Text → Text → Bool
text_lt s [] = false
text_lt [] (b ∷ t) = true
text_lt (a ∷ s) (b ∷ t) = let rest = text_lt s t in if a == b then rest else ltb a b

insert_text : Text → List Text → List Text
unfolding text_lt
insert_text t [] = t ∷ []
insert_text t (u ∷ us) = if text_lt u t then u ∷ insert_text t us else t ∷ u ∷ us

unfoldable pub sort_texts : List Text → List Text
unfolding insert_text
sort_texts [] = []
sort_texts (t ∷ ts) = insert_text t (sort_texts ts)

-- The first text with a unit in front.
add_first : ℕ → List Text → List Text
add_first d [] = (d ∷ []) ∷ []
add_first d (t ∷ ts) = (d ∷ t) ∷ ts

-- `s.split(c)` for a separator of one unit.
unfoldable pub split : ℕ → Text → List Text
unfolding add_first
split c [] = [] ∷ []
split c (d ∷ s) = let rest = split c s in if d == c then [] ∷ rest else add_first d rest

-- `s.trim().split(/\s+/)`, but for the empty text: the runs of other characters than white space.
words_of : Text → Text → List Text
unfolding is_space
words_of word [] = if filled word then reverse word ∷ [] else []
words_of word (c ∷ s) =
    let rest = words_of [] s in
    let longer = words_of (c ∷ word) s in
    if is_space c then (if filled word then reverse word ∷ rest else rest) else longer

unfoldable pub words : Text → List Text
unfolding words_of
words s = words_of [] s
