-- ===== src/Sizing/Bounds.antt =====
-- What a sized trade stays within.
use quantpaca.Base.{◌≡◌, ◌≢◌, refl, ◌⊎◌, Bool, true, false, ◌||◌, [], ◌++◌, arith}
use quantpaca.Js.Number.{Number, num, lt, le, eq, max, min, is_finite}
use quantpaca.Js.Arith.{div, floor}
use quantpaca.Js.Order.{le_trans, min-le_left, min-le_right}
use quantpaca.Js.Text.{Text}
use quantpaca.Sizing.{
  CapLimits, Cap, max_single_position, max_portfolio_exposure, buying_power_cap, max_notional,
  cap_if, SizingPortfolio, SizingInput, remaining_position, remaining_exposure, usable_buying_power,
  allowed_of, compute_cap_room, cap_room_to_qty, is_blocked, scaled_notional, size_trade_intent,
}

is_finite-min :
    (a b : Number) → is_finite a ≡ true → is_finite b ≡ true → is_finite (min a b) ≡ true
unfolding is_finite min
is_finite-min a b h k = ground arith

min_attained : (a b : Number) → (min a b ≡ a) ⊎ (min a b ≡ b)
unfolding min
min_attained a b = ground arith

eq_refl : (a : Number) → is_finite a ≡ true → eq a a ≡ true
unfolding eq is_finite le
eq_refl a h = ground arith

-- The least of four finite numbers is below each, and equal to one of them.
tightest_of :
    (p e b m : Number)
    → is_finite p ≡ true
    → is_finite e ≡ true
    → is_finite b ≡ true
    → is_finite m ≡ true
    → let a = min p (min e (min b m)) in
      (le a p ≡ true)
      × (le a e ≡ true)
      × (le a b ≡ true)
      × (le a m ≡ true)
      × ((eq a p || (eq a e || (eq a b || eq a m))) ≡ true)
tightest_of p e b m hp he hb hm =
    let fbm = is_finite-min b m hb hm in
    let febm = is_finite-min e (min b m) he fbm in
    let a = min p (min e (min b m)) in
    let below = min-le_right p (min e (min b m)) hp febm in
    let below' = le_trans a _ (min b m) below (min-le_right e (min b m) he fbm) in
    (
      min-le_left p (min e (min b m)) hp febm,
      le_trans a _ e below (min-le_left e (min b m) he fbm),
      le_trans a _ b below' (min-le_left b m hb hm),
      le_trans a _ m below' (min-le_right b m hb hm),
      ground (
        arith,
        min_attained p (min e (min b m)),
        min_attained e (min b m),
        min_attained b m,
        eq_refl p hp,
        eq_refl e he,
        eq_refl b hb,
        eq_refl m hm,
      ),
    )

caps_named :
    (x y z w : Bool) (c d e f : Cap)
    → (x || (y || (z || w))) ≡ true
    → (cap_if x c ++ (cap_if y d ++ (cap_if z e ++ cap_if w f))) ≢ []
caps_named x y z w c d e f h = ground arith

-- With four usable caps the allowed notional is the tightest of them: it exceeds none, it is one
-- of them, and at least one cap is named as applied.
pub compute_cap_room-tightest :
    (portfolio : SizingPortfolio) (symbol : Text) (limits : CapLimits)
    → is_finite (remaining_position portfolio symbol limits) ≡ true
    → is_finite (remaining_exposure portfolio limits) ≡ true
    → is_finite (usable_buying_power portfolio limits) ≡ true
    → is_finite limits.max_notional_per_trade ≡ true
    → let room = compute_cap_room portfolio symbol limits in
      (le room.allowed_notional (remaining_position portfolio symbol limits) ≡ true)
      × (le room.allowed_notional (remaining_exposure portfolio limits) ≡ true)
      × (le room.allowed_notional (usable_buying_power portfolio limits) ≡ true)
      × (le room.allowed_notional limits.max_notional_per_trade ≡ true)
      × (room.caps_applied ≢ [])
unfolding compute_cap_room
compute_cap_room-tightest portfolio symbol limits hp he hb hm =
    let room = allowed_of portfolio symbol limits in
    let (bp, be, bb, bm, named) =
      tightest_of (remaining_position portfolio symbol limits) (remaining_exposure portfolio limits)
        (usable_buying_power portfolio limits) limits.max_notional_per_trade hp he hb hm in
    (
      bp,
      be,
      bb,
      bm,
      caps_named (eq room (remaining_position portfolio symbol limits))
          (eq room (remaining_exposure portfolio limits))
          (eq room (usable_buying_power portfolio limits)) (eq room limits.max_notional_per_trade)
          max_single_position max_portfolio_exposure buying_power_cap max_notional named,
    )

zero_not_negative : lt (num 0) (num 0) ≡ false
unfolding num lt
zero_not_negative = refl

max_zero_nonnegative : (n : Number) → lt (max (num 0) n) (num 0) ≡ false
unfolding max num lt
max_zero_nonnegative n = ground arith

max_zero_positive : (n : Number) → lt (num 0) (max (num 0) n) ≡ true → max (num 0) n ≡ n
unfolding max num lt
max_zero_positive n h = ground arith

cap_room_to_qty_nonnegative : (a p : Number) → lt (cap_room_to_qty a p) (num 0) ≡ false
unfolding cap_room_to_qty
cap_room_to_qty_nonnegative a p =
    ground (arith, max_zero_nonnegative (floor (div a p)), zero_not_negative)

-- A positive quantity is the floor of the ratio.
cap_room_to_qty_positive :
    (a p : Number) → lt (num 0) (cap_room_to_qty a p) ≡ true → cap_room_to_qty a p ≡ floor (div a p)
unfolding cap_room_to_qty
cap_room_to_qty_positive a p h =
    ground (arith, max_zero_positive (floor (div a p)), zero_not_negative)

-- The quantity is never negative, whatever the numbers are.
size_trade_intent_nonnegative :
    (input : SizingInput) → lt (size_trade_intent input).qty (num 0) ≡ false
unfolding size_trade_intent
size_trade_intent_nonnegative input = ground (
  arith,
  zero_not_negative,
  cap_room_to_qty_nonnegative
      (scaled_notional input
        (compute_cap_room input.portfolio input.symbol input.limits).allowed_notional)
      input.estimated_price,
)

-- A trade gets a share only from an accepted signal, in a regime that lets its side through, at a
-- finite positive price.
sized_needs :
    (input : SizingInput)
    → lt (num 0) (size_trade_intent input).qty ≡ true
    → (input.signal_accepted ≡ true)
      × (is_blocked input.trade_permission input.side ≡ false)
      × (is_finite input.estimated_price ≡ true)
      × (le input.estimated_price (num 0) ≡ false)
      × ((size_trade_intent input).qty
          ≡ floor (
              div
                (scaled_notional input
                  (compute_cap_room input.portfolio input.symbol input.limits).allowed_notional)
                input.estimated_price))
unfolding size_trade_intent
sized_needs input h = ground (
  arith,
  zero_not_negative,
  cap_room_to_qty_positive
      (scaled_notional input
        (compute_cap_room input.portfolio input.symbol input.limits).allowed_notional)
      input.estimated_price,
)
