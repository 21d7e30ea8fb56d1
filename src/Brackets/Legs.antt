-- ===== src/Brackets/Legs.antt =====
-- When src/server/bracketOrders.ts gives legs, and which.
use quantpaca.Base.{◌≡◌, refl, ◌↔◌, true, not, arith}
use quantpaca.Js.Number.{Number, num, lt, le, is_finite}
use quantpaca.Js.Order.{lt-le_trans, le_of_lt, le-eq-not-lt}
use quantpaca.Js.Value.{Value}
use quantpaca.NumericSafety.{numeric_value, parse_finite_number}
use quantpaca.Trading.Types.{Side, buy, sell}
use quantpaca.Brackets.{
  BracketLegs, legs_ok, round_down_to_tick, check_legs, legs_of_parsed, build_bracket_legs,
}

-- The legs that protect an entry: finite numbers were given, the entry is positive, and the prices
-- rounded down to ticks lie on both sides of it.
pub record Protects (side : Side) (entry stop take_profit : Number) (legs : BracketLegs)
    : Type 0 where
  pub is_buy_entry : side ≡ buy
  pub finite_entry : is_finite entry ≡ true
  pub finite_stop : is_finite stop ≡ true
  pub finite_take_profit : is_finite take_profit ≡ true
  pub positive : lt (num 0) entry ≡ true
  pub stop_leg : legs.stop_loss_stop_price ≡ round_down_to_tick stop
  pub take_profit_leg : legs.take_profit_limit_price ≡ round_down_to_tick take_profit
  pub stop_below : lt legs.stop_loss_stop_price entry ≡ true
  pub take_profit_above : lt entry legs.take_profit_limit_price ≡ true

check_legs-ok :
    (entry stop take_profit : Number) (legs : BracketLegs)
    → check_legs entry stop take_profit ≡ legs_ok legs
    → (lt stop entry ≡ true)
      × (lt entry take_profit ≡ true)
      × (legs.stop_loss_stop_price ≡ stop)
      × (legs.take_profit_limit_price ≡ take_profit)
unfolding check_legs
check_legs-ok entry stop take_profit legs h = ground arith

check_legs_of :
    (entry stop take_profit : Number)
    → lt stop entry ≡ true
    → lt entry take_profit ≡ true
    → check_legs entry stop take_profit
      ≡ legs_ok (record { take_profit_limit_price = take_profit; stop_loss_stop_price = stop })
unfolding check_legs
check_legs_of entry stop take_profit below above =
    rw (below, above, lt-le_trans stop entry take_profit below (le_of_lt entry take_profit above))
      refl

not_positive : (n : Number) → is_finite n ≡ true → le n (num 0) ≡ not (lt (num 0) n)
unfolding is_finite num
not_positive n h = le-eq-not-lt n (num 0) h refl

gives_legs :
    (entry stop take_profit : Value) (legs : BracketLegs)
    → build_bracket_legs buy entry stop take_profit ≡ legs_ok legs
    → Protects buy (numeric_value entry) (numeric_value stop) (numeric_value take_profit) legs
unfolding build_bracket_legs parse_finite_number legs_of_parsed
gives_legs entry stop take_profit legs h =
    let at_entry = numeric_value entry in
    let at_stop = round_down_to_tick (numeric_value stop) in
    let at_profit = round_down_to_tick (numeric_value take_profit) in
    ground (arith, not_positive at_entry, check_legs-ok at_entry at_stop at_profit legs)

takes_legs :
    (entry stop take_profit : Value) (legs : BracketLegs)
    → Protects buy (numeric_value entry) (numeric_value stop) (numeric_value take_profit) legs
    → build_bracket_legs buy entry stop take_profit ≡ legs_ok legs
unfolding build_bracket_legs parse_finite_number legs_of_parsed
takes_legs entry stop take_profit legs h =
    let at_entry = numeric_value entry in
    let at_stop = round_down_to_tick (numeric_value stop) in
    let at_profit = round_down_to_tick (numeric_value take_profit) in
    ground (arith, not_positive at_entry, check_legs_of at_entry at_stop at_profit)

-- Legs are given exactly if they protect the entry. That the stop lies below the take-profit price
-- is then no condition of its own.
pub build_bracket_legs-Protects :
    (side : Side) (entry stop take_profit : Value) (legs : BracketLegs)
    → (build_bracket_legs side entry stop take_profit ≡ legs_ok legs)
      ↔ Protects side (numeric_value entry) (numeric_value stop) (numeric_value take_profit) legs
unfolding build_bracket_legs
build_bracket_legs-Protects buy entry stop take_profit legs =
    (gives_legs entry stop take_profit legs, takes_legs entry stop take_profit legs)
build_bracket_legs-Protects sell entry stop take_profit legs = (λ h. cc, λ h. ground arith)
