-- ===== src/Js/Numeral.antt =====
-- `Number(s)` for a string `s`: the numerals of JavaScript, read exactly and rounded once.
use quantpaca.Base.{
  ℕ, ◌+◌, ◌-◌, ◌*◌, ◌^◌, Bool, true, false, ◌&&◌, ◌||◌, [], ◌∷◌, Option, none, some, leb, ltb, ◌==◌,
  if◌then◌else◌,
}
use quantpaca.Js.Number.{Number, nan, infinite, finite, unit}
use quantpaca.Js.Arith.{round_ratio}
use quantpaca.Js.Text.{Text, text, text_eq, trim, filled}

-- The value of a digit, 99 for what is none.
digit : ℕ → ℕ
digit c =
    if leb b'0' c && leb c b'9'
    then c - b'0'
    else if leb b'a' c && leb c b'z'
    then c - b'a' + 10
    else if leb b'A' c && leb c b'Z'
    then c - b'A' + 10
    else 99

-- The whole text as digits of a base.
based : ℕ → ℕ → Text → Option ℕ
unfolding digit
based b acc [] = some acc
based b acc (c ∷ s) =
    let rest = based b (acc * b + digit c) s in if ltb (digit c) b then rest else none

prefixed : ℕ → Text → Number
unfolding based round_ratio unit
prefixed b [] = nan
prefixed b (c ∷ s) = elim (based b 0 (c ∷ s)) [
  | none ↦ nan
  | some v ↦ round_ratio false (v * unit) 1
]

-- The decimal digits at the front, with their value and count, and the rest.
digits : ℕ → ℕ → Text → ℕ × ℕ × Text
unfolding digit
digits v n [] = (v, n, [])
digits v n (c ∷ s) =
    let rest = digits (v * 10 + digit c) (n + 1) s in
    if ltb (digit c) 10 then rest else (v, n, c ∷ s)

-- The exponent part: its sign and size; the whole text must be used up.
exponent_digits : Bool → Text → Option (Bool × ℕ)
unfolding digits filled
exponent_digits s t =
    let (v, n, rest) = digits 0 0 t in if n == 0 || filled rest then none else some (s, v)

signed_exponent : Text → Option (Bool × ℕ)
unfolding exponent_digits
signed_exponent [] = none
signed_exponent (c ∷ t) =
    if c == b'-'
    then exponent_digits true t
    else if c == b'+'
    then exponent_digits false t
    else exponent_digits false (c ∷ t)

exponent : Text → Option (Bool × ℕ)
unfolding signed_exponent
exponent [] = some (false, 0)
exponent (c ∷ t) = if c == b'e' || c == b'E' then signed_exponent t else none

-- digits * 10 ^ (±e) / 10 ^ decimals
scaled : Bool → ℕ → ℕ → Option (Bool × ℕ) → Number
unfolding round_ratio unit
scaled s v decimals none = nan
scaled s v decimals (some (down, e)) =
    if down
    then round_ratio s (v * unit) (10 ^ (decimals + e))
    else round_ratio s (v * 10 ^ e * unit) (10 ^ decimals)

fraction : Bool → ℕ → ℕ → Text → Number
unfolding digits exponent scaled
fraction s v n t =
    let (w, k, rest) = digits v 0 t in if n + k == 0 then nan else scaled s w k (exponent rest)

after_integer : Bool → ℕ → ℕ → Text → Number
unfolding exponent scaled fraction
after_integer s v n [] = if n == 0 then nan else scaled s v 0 (some (false, 0))
after_integer s v n (c ∷ t) =
    if c == b'.' then fraction s v n t else if n == 0 then nan else scaled s v 0 (exponent (c ∷ t))

unsigned : Bool → Text → Number
unfolding digits after_integer text text_eq
unsigned s t =
    if text_eq t (text "Infinity")
    then infinite s
    else let (v, n, rest) = digits 0 0 t in after_integer s v n rest

after_zero : Text → Number
unfolding prefixed unsigned
after_zero [] = unsigned false (b'0' ∷ [])
after_zero (c ∷ t) =
    if c == b'x' || c == b'X'
    then prefixed 16 t
    else if c == b'o' || c == b'O'
    then prefixed 8 t
    else if c == b'b' || c == b'B'
    then prefixed 2 t
    else unsigned false (b'0' ∷ c ∷ t)

numeral : Text → Number
unfolding unsigned after_zero
numeral [] = finite false 0
numeral (c ∷ t) =
    if c == b'-'
    then unsigned true t
    else if c == b'+'
    then unsigned false t
    else if c == b'0'
    then after_zero t
    else unsigned false (c ∷ t)

unfoldable pub number_of_text : Text → Number
unfolding numeral trim
number_of_text s = numeral (trim s)
