-- ===== src/Js/Tests.antt =====
-- Runs of the number model at concrete inputs.
use quantpaca.Base.{◌*◌, ◌^◌, ◌≡◌, refl, true, false}
use quantpaca.Js.Number.{nan, infinite, finite, num, lt}
use quantpaca.Js.Arith.{round_ratio, ratio, add, mul, round}
use quantpaca.Js.Text.{text}
use quantpaca.Js.Numeral.{number_of_text}

reads_decimals : number_of_text (text " -12.50e1 ") ≡ finite true (125 * 2 ^ 1074)
unfolding number_of_text text round_ratio
reads_decimals = refl

reads_hex : number_of_text (text "0x1F") ≡ num 31
unfolding number_of_text text round_ratio num
reads_hex = refl

refuses_words : number_of_text (text "12 dollars") ≡ nan
unfolding number_of_text text round_ratio
refuses_words = refl

-- 0.1 + 0.2 is above 0.3, as in every JavaScript engine.
tenths : lt (ratio 3 10) (add (ratio 1 10) (ratio 2 10)) ≡ true
unfolding lt ratio add
tenths = refl

-- 0.1 + 0.2 is the literal 0.30000000000000004.
tenths_exact : add (ratio 1 10) (ratio 2 10) ≡ ratio 30000000000000004 100000000000000000
unfolding ratio add
tenths_exact = refl

overflows : mul (finite false (2 ^ 2000)) (finite true (2 ^ 2000)) ≡ infinite true
unfolding mul
overflows = refl

rounds_half_up : round (finite true (5 * 2 ^ 1073)) ≡ finite true (2 * 2 ^ 1074)
unfolding round
rounds_half_up = refl
