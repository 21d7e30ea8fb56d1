-- ===== src/Limits.antt =====
-- src/server/riskLimits.ts and src/server/cooldownConfig.ts: limits read from the environment, which
-- is a function from a variable's name to its text where it is set.
use quantpaca.Base.{
  Bool, true, false, not, ◌||◌, List, [], ◌∷◌, ◌++◌, Option, none, some, if◌then◌else◌, or_else,
}
use quantpaca.Js.Number.{Number, num, le, lt}
use quantpaca.Js.Text.{Text, text, text_eq}
use quantpaca.Js.Value.{Value}
use quantpaca.NumericSafety.{ParsedFiniteNumber, ok, failed, parse_finite_number}
pub mod Accepted

pub data LimitKey : Type 0 where
  max_daily_loss max_daily_trade_count max_open_positions min_buying_power : LimitKey
  max_daily_loss_percent max_drawdown_from_peak_percent : LimitKey
  max_drawdown_from_baseline_percent max_portfolio_exposure_percent : LimitKey

pub record Setting : Type 0 where
  pub key : LimitKey
  pub name : Text
  pub fallback : Text

setting : LimitKey → Text → Text → Setting
setting k n f = record { key = k; name = n; fallback = f }

-- `REQUIRED_POSITIVE`
unfoldable pub required_positive : List Setting
unfolding setting
required_positive =
    setting max_daily_loss (text "QUANTPACA_MAX_DAILY_LOSS") (text "500")
    ∷ setting max_daily_trade_count (text "QUANTPACA_MAX_DAILY_TRADES") (text "10")
    ∷ setting max_open_positions (text "QUANTPACA_MAX_OPEN_POSITIONS") (text "10")
    ∷ setting min_buying_power (text "QUANTPACA_MIN_BUYING_POWER") (text "100")
    ∷ setting max_daily_loss_percent (text "QUANTPACA_MAX_DAILY_LOSS_PERCENT") (text "3")
    ∷ setting max_drawdown_from_peak_percent (text "QUANTPACA_MAX_DRAWDOWN_FROM_PEAK_PERCENT")
        (text "10")
    ∷ setting max_drawdown_from_baseline_percent
        (text "QUANTPACA_MAX_DRAWDOWN_FROM_BASELINE_PERCENT") (text "15")
    ∷ []

-- The limits set so far, and the errors, each by the variable's name and its text.
pub record Loaded : Type 0 where
  pub limits : List (LimitKey × Number)
  pub baseline_equity : Option Number
  pub errors : List (Text × Text)

abbrev pub raw_of : (Text → Option Text) → Setting → Text
raw_of env s = or_else (env s.name) s.fallback

abbrev pub parsed_of : Text → Text → ParsedFiniteNumber
parsed_of raw name = parse_finite_number (Value.string raw) name

abbrev with_limit : LimitKey → Number → Loaded → Loaded
with_limit k n l = record l { limits = l.limits ++ ((k, n) ∷ []) }

abbrev with_error : Text → Text → Loaded → Loaded
with_error name raw l = record l { errors = l.errors ++ ((name, raw) ∷ []) }

unfoldable pub take_positive : Setting → Text → ParsedFiniteNumber → Loaded → Loaded
take_positive s raw (failed reason) l = with_error s.name raw l
take_positive s raw (ok n) l =
    if le n (num 0) then with_error s.name raw l else with_limit s.key n l

unfoldable pub load_positive : (Text → Option Text) → List Setting → Loaded → Loaded
unfolding take_positive
load_positive env [] l = l
load_positive env (s ∷ ss) l =
    load_positive env ss (take_positive s (raw_of env s) (parsed_of (raw_of env s) s.name) l)

abbrev pub exposure_setting : Setting
exposure_setting = record {
  key = max_portfolio_exposure_percent;
  name = text "QUANTPACA_MAX_PORTFOLIO_EXPOSURE_PERCENT";
  fallback = text "60";
}

unfoldable pub take_exposure : Text → ParsedFiniteNumber → Loaded → Loaded
take_exposure raw (failed reason) l = with_error exposure_setting.name raw l
take_exposure raw (ok n) l =
    if le n (num 0) || lt (num 100) n
    then with_error exposure_setting.name raw l
    else with_limit max_portfolio_exposure_percent n l

abbrev pub baseline_name : Text
baseline_name = text "QUANTPACA_BASELINE_EQUITY"

unfoldable pub take_baseline : Text → ParsedFiniteNumber → Loaded → Loaded
take_baseline raw (failed reason) l = with_error baseline_name raw l
take_baseline raw (ok n) l =
    if le n (num 0) then with_error baseline_name raw l else record l { baseline_equity = some n }

-- An unset or empty baseline is none.
unfoldable pub load_baseline : Option Text → Loaded → Loaded
unfolding take_baseline
load_baseline none l = l
load_baseline (some raw) l =
    if text_eq raw [] then l else take_baseline raw (parsed_of raw baseline_name) l

-- `loadRiskLimits`: it succeeds exactly if `errors` is empty.
unfoldable pub load_risk_limits : (Text → Option Text) → Loaded
unfolding load_positive take_exposure load_baseline
load_risk_limits env =
    let raw = raw_of env exposure_setting in
    load_baseline (env baseline_name) (
      take_exposure raw (parsed_of raw exposure_setting.name) (
        load_positive env required_positive
          (record { limits = []; baseline_equity = none; errors = [] })))

abbrev pub cooldown_setting : Text
cooldown_setting = text "QUANTPACA_SYMBOL_COOLDOWN_HOURS"

take_cooldown : ParsedFiniteNumber → Option Number
take_cooldown (failed reason) = none
take_cooldown (ok n) = if lt n (num 0) then none else some n

-- `loadCooldownConfig`: the hours, or `none` with the one error that it reports.
unfoldable pub load_cooldown_config : (Text → Option Text) → Option Number
unfolding take_cooldown
load_cooldown_config env =
    take_cooldown (parsed_of (or_else (env cooldown_setting) (text "24")) cooldown_setting)
