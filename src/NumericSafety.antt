-- ===== src/NumericSafety.antt =====
-- src/server/numericSafety.ts: the boundary that every number in a risk comparison passes.
pub mod Laws
use quantpaca.Base.{Bool, if◌then◌else◌}
use quantpaca.Js.Number.{Number, nan, is_finite}
use quantpaca.Js.Text.{Text, trim, filled}
use quantpaca.Js.Numeral.{number_of_text}
use quantpaca.Js.Value.{Value}

pub data ParsedFiniteNumber : Type 0 where
  ok : Number → ParsedFiniteNumber
  failed : Text → ParsedFiniteNumber

-- The number that the value stands for: its own, or the one that a text which is not blank spells.
unfoldable pub numeric_value : Value → Number
numeric_value (Value.number n) = n
numeric_value (Value.string s) = if filled (trim s) then number_of_text s else nan
numeric_value _ = nan

unfoldable pub parse_finite_number : Value → Text → ParsedFiniteNumber
unfolding numeric_value is_finite
parse_finite_number value field_name =
    if is_finite (numeric_value value) then ok (numeric_value value) else failed field_name
