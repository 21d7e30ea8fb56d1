-- ===== src/Js/Number.antt =====
-- A JavaScript number, an IEEE 754 double: every finite one is a whole multiple of 2 ^ -1074, so
-- it is kept as its sign and its magnitude in that unit, and comparisons are exact.
use quantpaca.Base.{ℕ, ◌*◌, ◌^◌, Bool, true, false, not, ◌&&◌, ◌||◌, ltb, ◌==◌, if◌then◌else◌}

-- The sign `true` is the negative one; `finite true 0` is -0.
pub data Number : Type 0 where
  nan : Number
  infinite : Bool → Number
  finite : Bool → ℕ → Number

-- One, in units of 2 ^ -1074.
unfoldable pub unit : ℕ
unit = 2 ^ 1074

-- The literal of a whole number below 2 ^ 53.
unfoldable pub num : ℕ → Number
unfolding unit
num n = finite false (n * unit)

unfoldable pub is_finite : Number → Bool
is_finite nan = false
is_finite (infinite _) = false
is_finite (finite _ _) = true

-- `a < b`
unfoldable pub lt : Number → Number → Bool
lt nan _ = false
lt (infinite s) nan = false
lt (finite s m) nan = false
lt (infinite s) (infinite t) = s && not t
lt (infinite s) (finite t n) = s
lt (finite s m) (infinite t) = not t
lt (finite false m) (finite false n) = ltb m n
lt (finite true m) (finite true n) = ltb n m
lt (finite true m) (finite false n) = not (m == 0 && n == 0)
lt (finite false m) (finite true n) = false

-- `a <= b`
unfoldable pub le : Number → Number → Bool
unfolding lt
le nan _ = false
le (infinite s) nan = false
le (finite s m) nan = false
le (infinite s) (infinite t) = not (lt (infinite t) (infinite s))
le (infinite s) (finite t n) = not (lt (finite t n) (infinite s))
le (finite s m) (infinite t) = not (lt (infinite t) (finite s m))
le (finite s m) (finite t n) = not (lt (finite t n) (finite s m))

-- `a === b` on numbers: NaN differs from itself, and 0 equals -0.
unfoldable pub eq : Number → Number → Bool
unfolding le
eq a b = le a b && le b a

-- The number as a condition: 0, -0 and NaN are falsy.
unfoldable pub truthy : Number → Bool
truthy nan = false
truthy (infinite _) = true
truthy (finite _ m) = not (m == 0)

-- `a || d` on numbers.
unfoldable pub number_or : Number → Number → Number
unfolding truthy
number_or a d = if truthy a then a else d

-- `Math.max` and `Math.min` of two numbers; NaN wins, and 0 is above -0.
unfoldable pub max : Number → Number → Number
unfolding lt
max nan _ = nan
max (infinite s) nan = nan
max (finite s m) nan = nan
max (infinite s) (infinite t) = infinite (s && t)
max (infinite s) (finite t n) = if s then finite t n else infinite s
max (finite s m) (infinite t) = if t then finite s m else infinite t
max (finite s m) (finite t n) =
    if lt (finite s m) (finite t n) || (s && m == 0 && n == 0) then finite t n else finite s m

unfoldable pub min : Number → Number → Number
unfolding lt
min nan _ = nan
min (infinite s) nan = nan
min (finite s m) nan = nan
min (infinite s) (infinite t) = infinite (s || t)
min (infinite s) (finite t n) = if s then infinite s else finite t n
min (finite s m) (infinite t) = if t then infinite t else finite s m
min (finite s m) (finite t n) =
    if lt (finite t n) (finite s m) || (t && m == 0 && n == 0) then finite t n else finite s m

-- `Math.abs` and unary minus.
unfoldable pub abs : Number → Number
abs nan = nan
abs (infinite _) = infinite false
abs (finite _ m) = finite false m

unfoldable pub neg : Number → Number
neg nan = nan
neg (infinite s) = infinite (not s)
neg (finite s m) = finite (not s) m
