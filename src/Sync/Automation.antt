-- ===== src/Sync/Automation.antt =====
-- `runSyncCycle` of src/server.ts: the trade that an accepted analysis leads to, with the cap on buys
-- of one cycle. What the cycle reads for an analysis is a record, where a read that throws is `none`;
-- the log lines, the notices and the simulated portfolio's bookkeeping are left out.
use quantpaca.Base.{
  ℕ, zero, suc, Bool, true, false, not, ◌&&◌, ◌||◌, List, [], ◌∷◌, ◌++◌, Option, none, some,
  if◌then◌else◌, leb,
}
use quantpaca.Js.Number.{Number, num, lt, le, is_finite}
use quantpaca.Js.Arith.{sub, mul, div}
use quantpaca.Js.Text.{Text, text_eq}
use quantpaca.Trading.Types.{Side, TradeRequest, automation, DoNotBuyEntry, RiskReason}
use quantpaca.Poller.Fetch.{BrokerOrderPollResult}
use quantpaca.Poller.Cycle.{CancelResult}
use quantpaca.Risk.Portfolio.{AlpacaPosition, OpenOrder}
use quantpaca.Portfolio.{
  AlpacaAccount, PortfolioAssessment, PortfolioSource, alpaca, local_simulated_snapshot,
  assess_portfolio,
}
use quantpaca.Regime.{RegimeInput, RegimeAssessment, detect_regime}
use quantpaca.Sizing.{SizingInput, SizingPortfolio, CapLimits, Sized, size_trade_intent}
use quantpaca.Scheduler.{max_buys_per_cycle}
use quantpaca.Execution.Context.{Context, number_of}
use quantpaca.Liquidation.{LegLookup, sell_risk_preflight, cancel_bracket_legs_before_sell}
use quantpaca.Signals.{SignalDecision, buy, sell, hold, nothing}
pub mod Cleared
pub mod Buys
pub mod Capped

-- The settings of the cycle: `config.system` and the limits of the environment.
pub record CycleSettings : Type 0 where
  pub auto_trading : Bool
  pub stop_loss_percent : Number
  pub max_position_size_percent : Number
  pub max_portfolio_exposure_percent : Number
  pub min_buying_power : Number

-- An analysis whose signal was accepted, with what the cycle reads for it. A scan target has one, so
-- that an error ends nothing but its own analysis.
pub record Analysis : Type 0 where
  pub symbol : Text
  -- The symbol of the reviewed signal, which the sizing takes.
  pub signal_symbol : Text
  pub decision : SignalDecision
  pub confidence_score : Number
  pub cross_source_conflict : Bool
  pub buy_reasoning : Text
  pub sell_reasoning : Text
  -- `getAlpacaPortfolio`, the price that was looked up (zero where there is none), the do-not-buy
  -- list and `getAlpacaOpenOrders`.
  pub portfolio : Option AlpacaAccount
  pub price : Number
  pub do_not_buy : Option (List DoNotBuyEntry)
  pub open_orders : Option (List OpenOrder)
  pub regime_inputs : RegimeInput
  -- What the chokepoint reads, and the broker's answers to cancellations and polls of legs.
  pub ctx : Context
  pub legs : LegLookup
  pub cancel_order : Text → CancelResult
  pub poll_order : Text → BrokerOrderPollResult

pub data Outcome : Type 0 where
  -- The analysis asks for no trade, or automated trading is off.
  untraded : Outcome
  -- The cycle's error handler logs what was thrown.
  failed : Outcome
  no_portfolio_value no_price no_stop_loss no_quantity buy_cap_reached : Outcome
  do_not_buy_unreadable : Outcome
  on_do_not_buy_list : DoNotBuyEntry → Outcome
  sell_rejected : RiskReason → Outcome
  legs_not_canceled : Outcome
  submitted : TradeRequest → Outcome

unfoldable pub entry_for : Text → List DoNotBuyEntry → Option DoNotBuyEntry
entry_for symbol [] = none
entry_for symbol (e ∷ es) = if text_eq e.symbol symbol then some e else entry_for symbol es

unfoldable pub position_for : Text → List AlpacaPosition → Option AlpacaPosition
position_for symbol [] = none
position_for symbol (p ∷ ps) = if text_eq p.symbol symbol then some p else position_for symbol ps

sizing_portfolio : PortfolioAssessment → SizingPortfolio
sizing_portfolio assessment = record {
  equity = assessment.equity;
  long_market_value = assessment.long_market_value;
  pending_order_notional = assessment.pending_order_notional;
  buying_power = assessment.buying_power;
  per_symbol_concentration = assessment.per_symbol_concentration;
}

-- `parsedPortfolioValue * (maxPositionSizePercent / 100)`
max_position_value : CycleSettings → AlpacaAccount → Number
max_position_value settings account =
    mul (number_of account.portfolio_value) (div settings.max_position_size_percent (num 100))

-- The sizing of a buy.
unfoldable pub sized_buy : CycleSettings → Analysis → AlpacaAccount → List OpenOrder → Sized
unfolding sizing_portfolio max_position_value
sized_buy settings item account orders =
    let source : PortfolioSource =
      if item.ctx.broker_config.configured then alpaca else local_simulated_snapshot in
    let regime = detect_regime (record item.regime_inputs { symbol = some item.symbol }) in
    size_trade_intent (record {
      signal_accepted = true;
      symbol = item.signal_symbol;
      confidence_score = item.confidence_score;
      trade_permission = regime.trade_permission;
      size_multiplier = regime.size_multiplier;
      portfolio = sizing_portfolio (assess_portfolio account orders source);
      side = Side.buy;
      estimated_price = item.price;
      stop_loss_price = mul item.price (sub (num 1) (div settings.stop_loss_percent (num 100)));
      limits = record {
        max_single_position_percent = settings.max_position_size_percent;
        max_portfolio_exposure_percent = settings.max_portfolio_exposure_percent;
        max_notional_per_trade = max_position_value settings account;
        min_buying_power_after_trade = settings.min_buying_power;
      };
    })

unfoldable pub buy_request : Analysis → Number → TradeRequest
buy_request item qty = record {
  source = automation;
  symbol = item.symbol;
  side = Side.buy;
  qty = qty;
  estimated_price = item.price;
  reasoning = item.buy_reasoning;
  actor = none;
  cross_source_conflict = item.cross_source_conflict;
}

-- A buy whose size is known, at the number of buys so far.
capped_buy : Analysis → Number → ℕ → Outcome × ℕ
unfolding buy_request
capped_buy item qty buys =
    if lt qty (num 1)
    then (no_quantity, buys)
    else if leb max_buys_per_cycle buys
    then (buy_cap_reached, buys)
    else (submitted (buy_request item qty), suc buys)

buy_with_orders :
    CycleSettings → Analysis → AlpacaAccount → ℕ → Option (List OpenOrder) → Outcome × ℕ
unfolding capped_buy
buy_with_orders settings item account buys none = (failed, buys)
buy_with_orders settings item account buys (some orders) =
    if not (is_finite settings.stop_loss_percent) || le settings.stop_loss_percent (num 0)
    then (no_stop_loss, buys)
    else capped_buy item (sized_buy settings item account orders).qty buys

buy_listed : CycleSettings → Analysis → AlpacaAccount → ℕ → Option DoNotBuyEntry → Outcome × ℕ
unfolding buy_with_orders
buy_listed settings item account buys (some entry) = (on_do_not_buy_list entry, buys)
buy_listed settings item account buys none =
    buy_with_orders settings item account buys item.open_orders

unfoldable pub buy_read :
    CycleSettings → Analysis → AlpacaAccount → ℕ → Option (List DoNotBuyEntry) → Outcome × ℕ
unfolding buy_listed entry_for
buy_read settings item account buys none = (do_not_buy_unreadable, buys)
buy_read settings item account buys (some entries) =
    buy_listed settings item account buys (entry_for item.symbol entries)

automate_buy : CycleSettings → Analysis → AlpacaAccount → ℕ → Outcome × ℕ
unfolding buy_read
automate_buy settings item account buys = buy_read settings item account buys item.do_not_buy

unfoldable pub sell_request : Analysis → Number → TradeRequest
sell_request item qty = record {
  source = automation;
  symbol = item.symbol;
  side = Side.sell;
  qty = qty;
  estimated_price = item.price;
  reasoning = item.sell_reasoning;
  actor = none;
  cross_source_conflict = false;
}

sell_checked : Analysis → Number → Option RiskReason → Outcome
unfolding sell_request
sell_checked item qty (some reason) = sell_rejected reason
sell_checked item qty none =
    if (cancel_bracket_legs_before_sell item.cancel_order item.poll_order item.ctx.now item.symbol
      item.ctx.broker_config.configured item.legs).ok
    then submitted (sell_request item qty)
    else legs_not_canceled

unfoldable pub is_usable : Number → Bool
is_usable n = is_finite n && lt (num 0) n

asks_for_trade : SignalDecision → Bool
asks_for_trade buy = true
asks_for_trade sell = true
asks_for_trade hold = false
asks_for_trade nothing = false

-- `parseInt` of a text is a parameter.
module _ (parse_int : Text → Number) where
  automate_sell : Analysis → AlpacaAccount → Option AlpacaPosition → Outcome
  unfolding sell_checked
  automate_sell item account none = untraded
  automate_sell item account (some position) =
      let qty = parse_int position.qty in
      if lt (num 0) qty
      then sell_checked item qty (sell_risk_preflight item.ctx account qty item.price)
      else untraded

  traded : CycleSettings → Analysis → AlpacaAccount → ℕ → SignalDecision → Outcome × ℕ
  unfolding automate_buy automate_sell position_for
  traded settings item account buys buy = automate_buy settings item account buys
  traded settings item account buys sell =
      (automate_sell item account (position_for item.symbol account.positions), buys)
  traded settings item account buys hold = (untraded, buys)
  traded settings item account buys nothing = (untraded, buys)

  with_portfolio : CycleSettings → Analysis → ℕ → Option AlpacaAccount → Outcome × ℕ
  unfolding traded is_usable
  with_portfolio settings item buys none = (failed, buys)
  with_portfolio settings item buys (some account) =
      if not (is_usable (number_of account.portfolio_value))
      then (no_portfolio_value, buys)
      else if not (is_usable item.price)
      then (no_price, buys)
      else traded settings item account buys item.decision

  -- One analysis: its outcome, and the number of buys after it.
  unfoldable pub automate : CycleSettings → Analysis → ℕ → Outcome × ℕ
  unfolding with_portfolio asks_for_trade
  automate settings item buys =
      if settings.auto_trading && asks_for_trade item.decision
      then with_portfolio settings item buys item.portfolio
      else (untraded, buys)

  -- The analyses of a cycle, in order.
  unfoldable pub automate_all : CycleSettings → List Analysis → ℕ → List Outcome
  automate_all settings [] buys = []
  automate_all settings (item ∷ items) buys =
      let (outcome, after) = automate settings item buys in
      outcome ∷ automate_all settings items after
