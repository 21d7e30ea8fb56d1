-- ===== src/Trading/Symbol.antt =====
-- src/server/tradingSafety.ts, `validateSymbol`.
use quantpaca.Base.{
  ℕ, Bool, true, false, ◌&&◌, ◌||◌, [], ◌∷◌, Option, none, some, leb, ◌==◌, if◌then◌else◌, every,
  length,
}
use quantpaca.Js.Text.{Text, trim, to_upper}

pub record SymbolCheck : Type 0 where
  pub valid : Bool
  pub normalized : Option Text

is_capital : ℕ → Bool
is_capital c = leb b'A' c && leb c b'Z'

is_ticker_unit : ℕ → Bool
unfolding is_capital
is_ticker_unit c = is_capital c || (leb b'0' c && leb c b'9') || c == b'.' || c == b'-'

-- The test /^[A-Z][A-Z0-9.-]{0,9}$/.
unfoldable pub is_ticker : Text → Bool
unfolding is_capital is_ticker_unit
is_ticker [] = false
is_ticker (c ∷ s) = is_capital c && leb (length s) 9 && every is_ticker_unit s

unfoldable pub validate_symbol : Text → SymbolCheck
validate_symbol symbol =
    let normalized = to_upper (trim symbol) in
    if is_ticker normalized
    then record { valid = true; normalized = some normalized }
    else record { valid = false; normalized = none }
