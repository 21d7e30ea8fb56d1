-- ===== src/Tests/Brackets.antt =====
-- Bracket legs at concrete prices.
use quantpaca.Base.{◌≡◌, ◌↔◌, refl}
use quantpaca.Js.Number.{num, is_finite, lt, le}
use quantpaca.Js.Arith.{ratio, fixed_number, add, mul, div, floor}
use quantpaca.Js.Value.{Value}
use quantpaca.NumericSafety.{numeric_value, parse_finite_number}
use quantpaca.Trading.Types.{buy}
use quantpaca.Brackets.{BracketLegs, legs_ok, round_down_to_tick, build_bracket_legs}
use quantpaca.Brackets.Legs.{Protects, build_bracket_legs-Protects}

abbrev sample_legs : BracketLegs
sample_legs = record { take_profit_limit_price = num 115; stop_loss_stop_price = num 95 }

build_bracket_legs-Protects_example :
    (build_bracket_legs buy
        (Value.number (num 100))
        (Value.number (num 95))
        (Value.number (num 115))
      ≡ legs_ok sample_legs)
    ↔ Protects buy
        (numeric_value (Value.number (num 100)))
        (numeric_value (Value.number (num 95)))
        (numeric_value (Value.number (num 115)))
        sample_legs
build_bracket_legs-Protects_example =
    build_bracket_legs-Protects buy (Value.number (num 100)) (Value.number (num 95))
      (Value.number (num 115)) sample_legs

bracket_built :
    build_bracket_legs buy (Value.number (num 100)) (Value.number (num 95)) (Value.number (num 115))
    ≡ legs_ok sample_legs
unfolding build_bracket_legs round_down_to_tick fixed_number num parse_finite_number is_finite lt le
    add mul div floor ratio
bracket_built = refl

-- A price just below its tick stays on it.
tick_kept : round_down_to_tick (ratio 11499999999999999 100000000000000) ≡ num 115
unfolding round_down_to_tick fixed_number num is_finite lt le add mul div floor ratio
tick_kept = refl
