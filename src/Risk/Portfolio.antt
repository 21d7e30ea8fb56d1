-- ===== src/Risk/Portfolio.antt =====
-- The portfolio records of src/server/domainTypes.ts and src/types.ts.
use quantpaca.Base.{Option}
use quantpaca.Js.Text.{Text}
use quantpaca.Js.Value.{Value}
use quantpaca.Trading.Types.{Side}

pub record AlpacaPosition : Type 0 where
  pub symbol : Text
  pub qty : Text
  pub market_value : Text

pub record OpenOrder : Type 0 where
  pub id : Text
  pub symbol : Text
  pub side : Side
  pub qty : Text
  pub notional : Option Text
  pub status : Text

pub record SizedTradeIntent : Type 0 where
  pub symbol : Text
  pub side : Side
  pub qty : Value
  pub notional : Value
  pub estimated_price : Value

pub data BreakerStatus : Type 0 where
  ok block_new_buys close_only : BreakerStatus
