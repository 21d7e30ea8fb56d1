-- ===== src/Js/Order.antt =====
-- The order on doubles: what comparisons, `Math.max` and `Math.min` satisfy.
use quantpaca.Base.{◌≡◌, refl, true, false, not, arith}
use quantpaca.Js.Number.{Number, nan, infinite, finite, is_finite, lt, le, max, min, neg, abs}

pub le-not-lt : (a b : Number) → le a b ≡ true → lt b a ≡ false
unfolding le
le-not-lt nan b h = cc
le-not-lt (infinite s) nan h = cc
le-not-lt (finite s m) nan h = cc
le-not-lt (infinite s) (infinite t) h = ground arith
le-not-lt (infinite s) (finite t n) h = ground arith
le-not-lt (finite s m) (infinite t) h = ground arith
le-not-lt (finite s m) (finite t n) h = ground arith

-- On finite numbers `a <= b` is the negation of `b < a`.
pub le-eq-not-lt : (a b : Number) → is_finite a ≡ true → is_finite b ≡ true → le a b ≡ not (lt b a)
unfolding le is_finite
le-eq-not-lt nan b h k = cc
le-eq-not-lt (infinite s) b h k = cc
le-eq-not-lt (finite s m) nan h k = cc
le-eq-not-lt (finite s m) (infinite t) h k = cc
le-eq-not-lt (finite s m) (finite t n) h k = refl

pub le_trans : (a b c : Number) → le a b ≡ true → le b c ≡ true → le a c ≡ true
unfolding le
le_trans a b c h k = ground arith

pub lt-le_trans : (a b c : Number) → lt a b ≡ true → le b c ≡ true → lt a c ≡ true
unfolding le
lt-le_trans a b c h k = ground arith

pub le-max_left : (a b : Number) → is_finite a ≡ true → is_finite b ≡ true → le a (max a b) ≡ true
unfolding max le is_finite
le-max_left a b h k = ground arith

pub le-max_right : (a b : Number) → is_finite a ≡ true → is_finite b ≡ true → le b (max a b) ≡ true
unfolding max le is_finite
le-max_right a b h k = ground arith

pub min-le_left : (a b : Number) → is_finite a ≡ true → is_finite b ≡ true → le (min a b) a ≡ true
unfolding min le is_finite
min-le_left a b h k = ground arith

pub min-le_right : (a b : Number) → is_finite a ≡ true → is_finite b ≡ true → le (min a b) b ≡ true
unfolding min le is_finite
min-le_right a b h k = ground arith

pub is_finite-neg-abs : (a : Number) → is_finite a ≡ true → is_finite (neg (abs a)) ≡ true
unfolding is_finite neg abs
is_finite-neg-abs a h = ground arith

pub is_finite-max :
    (a b : Number) → is_finite a ≡ true → is_finite b ≡ true → is_finite (max a b) ≡ true
unfolding is_finite max
is_finite-max a b h k = ground arith

pub le_of_lt : (a b : Number) → lt a b ≡ true → le a b ≡ true
unfolding le
le_of_lt a b h = ground arith
