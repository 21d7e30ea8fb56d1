-- ===== src/Js/Arith.antt =====
-- Arithmetic on doubles: the exact result as a ratio of whole numbers, rounded to the nearest
-- double, ties to even.
use quantpaca.Base.{
  ℕ, zero, suc, ◌+◌, ◌-◌, ◌*◌, ◌/◌, ◌%◌, ◌^◌, Bool, true, false, not, ◌&&◌, ◌||◌, xor, ltb, leb,
  ◌==◌, if◌then◌else◌,
}
use quantpaca.Js.Number.{Number, nan, infinite, finite, unit, neg}

-- The number of binary digits, by halving; the fuel bounds the answer.
bit_length : ℕ → ℕ → ℕ
bit_length zero n = 0
bit_length (suc f) n = let rest = bit_length f (n / 2) in if n == 0 then 0 else suc rest

-- 2 ^ 1024 in units of 2 ^ -1074: what rounds to this or beyond is infinite.
overflow : ℕ
overflow = 2 ^ 2098

-- n / d in units of 2 ^ -1074, rounded to 53 binary digits. A product of two doubles has fewer
-- than 4200 digits.
unfoldable pub round_ratio : Bool → ℕ → ℕ → Number
unfolding bit_length overflow
round_ratio s n d =
    let digits = bit_length 8000 (n / d) in
    let step : ℕ = 2 ^ (digits - 53) in
    let q = n / (d * step) in
    let r = n % (d * step) in
    let up = ltb (d * step) (2 * r) || (2 * r == d * step && q % 2 == 1) in
    let m = (if up then q + 1 else q) * step in if leb overflow m then infinite s else finite s m

-- The literal n / d, such as 0.75 as `ratio 75 100`.
unfoldable pub ratio : ℕ → ℕ → Number
unfolding round_ratio unit
ratio n d = round_ratio false (n * unit) d

unfoldable pub add : Number → Number → Number
unfolding round_ratio
add nan _ = nan
add (infinite s) nan = nan
add (finite s m) nan = nan
add (infinite s) (infinite t) = if xor s t then nan else infinite s
add (infinite s) (finite t n) = infinite s
add (finite s m) (infinite t) = infinite t
add (finite s m) (finite t n) =
    if not (xor s t)
    then round_ratio s (m + n) 1
    else if m == n
    then finite false 0
    else if ltb n m
    then round_ratio s (m - n) 1
    else round_ratio t (n - m) 1

unfoldable pub sub : Number → Number → Number
unfolding add neg
sub a b = add a (neg b)

unfoldable pub mul : Number → Number → Number
unfolding round_ratio unit
mul nan _ = nan
mul (infinite s) nan = nan
mul (finite s m) nan = nan
mul (infinite s) (infinite t) = infinite (xor s t)
mul (infinite s) (finite t n) = if n == 0 then nan else infinite (xor s t)
mul (finite s m) (infinite t) = if m == 0 then nan else infinite (xor s t)
mul (finite s m) (finite t n) = round_ratio (xor s t) (m * n) unit

unfoldable pub div : Number → Number → Number
unfolding round_ratio unit
div nan _ = nan
div (infinite s) nan = nan
div (finite s m) nan = nan
div (infinite s) (infinite t) = nan
div (infinite s) (finite t n) = infinite (xor s t)
div (finite s m) (infinite t) = finite (xor s t) 0
div (finite s m) (finite t n) =
    if n == 0
    then (if m == 0 then nan else infinite (xor s t))
    else round_ratio (xor s t) (m * unit) n

-- `Math.floor`
unfoldable pub floor : Number → Number
unfolding unit
floor nan = nan
floor (infinite s) = infinite s
floor (finite false m) = finite false (m / unit * unit)
floor (finite true m) = finite true ((m + unit - 1) / unit * unit)

-- `Math.round`: to the nearest whole number, a half upwards.
unfoldable pub round : Number → Number
unfolding unit
round nan = nan
round (infinite s) = infinite s
round (finite false m) = finite false ((2 * m + unit) / (2 * unit) * unit)
round (finite true m) = finite true ((2 * m + unit - 1) / (2 * unit) * unit)

-- `Number(x.toFixed(d))`: the nearest decimal with d places, a half away from zero.
unfoldable pub fixed_number : ℕ → Number → Number
unfolding round_ratio unit
fixed_number d nan = nan
fixed_number d (infinite s) = infinite s
fixed_number d (finite s m) =
    if m == 0
    then finite false 0
    else if leb (10 ^ 21 * unit) m
    then finite s m
    else round_ratio s ((2 * m * 10 ^ d + unit) / (2 * unit) * unit) (10 ^ d)

-- `a % b`, which is exact and has the sign of `a`.
unfoldable pub rem : Number → Number → Number
rem nan _ = nan
rem (infinite s) _ = nan
rem (finite s m) nan = nan
rem (finite s m) (infinite t) = finite s m
rem (finite s m) (finite t n) = if n == 0 then nan else finite s (m % n)
