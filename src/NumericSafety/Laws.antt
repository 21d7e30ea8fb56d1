-- ===== src/NumericSafety/Laws.antt =====
-- What a parsed number is: finite, and the one that the value stands for.
use quantpaca.Base.{◌≡◌, true, ◌↔◌, arith, Bool-cases, inl, inr}
use quantpaca.Js.Number.{Number, is_finite}
use quantpaca.Js.Text.{Text}
use quantpaca.Js.Value.{Value}
use quantpaca.NumericSafety.{ok, numeric_value, parse_finite_number}

-- A parse succeeds exactly with the finite number that the value stands for.
pub parse_finite_number_ok :
    (v : Value) (f : Text) (n : Number)
    → (parse_finite_number v f ≡ ok n) ↔ ((is_finite n ≡ true) × (numeric_value v ≡ n))
unfolding parse_finite_number
parse_finite_number_ok v f n = elim (Bool-cases (is_finite (numeric_value v))) [
  | inl yes_finite ↦ ground arith
  | inr not_finite ↦ ground arith
]
