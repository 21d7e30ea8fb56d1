-- ===== src/Trading/Config.antt =====
-- src/server/tradingSafety.ts, `buildBrokerConfigFromEnv` and `normalizeAlpacaBaseUrl`.
use quantpaca.Base.{
  Bool, false, ◌&&◌, [], ◌∷◌, ◌++◌, Option, none, some, ◌==◌, if◌then◌else◌, is_some,
}
use quantpaca.Js.Text.{Text, text, text_eq, filled, ends_with}
use quantpaca.Trading.Types.{BrokerConfig, TradingMode, paper, live}

-- The environment: a variable that is not set is `none`.
pub record Environment : Type 0 where
  pub trading_mode : Option Text
  pub alpaca_api_key : Option Text
  pub alpaca_secret_key : Option Text
  pub live_trading_enabled : Option Text
  pub alpaca_base_url : Option Text

-- `value === literal` for a variable that may not be set.
unfoldable pub is_set_to : Option Text → Text → Bool
is_set_to none t = false
is_set_to (some s) t = text_eq s t

-- `value || undefined`
filled_value : Option Text → Option Text
filled_value none = none
filled_value (some s) = if filled s then some s else none

filled_or : Option Text → Text → Text
filled_or none d = d
filled_or (some s) d = if filled s then s else d

-- `url.replace(/\/$/, "")`: one slash at the end is dropped.
drop_slash : Text → Text
drop_slash [] = []
drop_slash (c ∷ []) = if c == b'/' then [] else c ∷ []
drop_slash (c ∷ d ∷ s) = c ∷ drop_slash (d ∷ s)

normalize_alpaca_base_url : Text → Text
unfolding drop_slash
normalize_alpaca_base_url url =
    let trimmed = drop_slash url in
    if ends_with trimmed (text "/v2") then trimmed else trimmed ++ text "/v2"

default_base_url : TradingMode → Text
default_base_url live = text "https://api.alpaca.markets/v2"
default_base_url paper = text "https://paper-api.alpaca.markets/v2"

unfoldable pub build_broker_config_from_env : Environment → BrokerConfig
unfolding is_set_to filled_value filled_or default_base_url normalize_alpaca_base_url
build_broker_config_from_env env =
    let mode = if is_set_to env.trading_mode (text "live") then live else paper in
    let api_key = filled_value env.alpaca_api_key in
    let secret_key = filled_value env.alpaca_secret_key in
    record {
      configured = is_some api_key && is_some secret_key;
      trading_mode = mode;
      live_trading_enabled = is_set_to env.live_trading_enabled (text "true");
      base_url = normalize_alpaca_base_url (filled_or env.alpaca_base_url (default_base_url mode));
      api_key = api_key;
      secret_key = secret_key;
    }
