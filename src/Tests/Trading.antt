-- ===== src/Tests/Trading.antt =====
-- The trade pipeline at concrete inputs.
use quantpaca.Base.{◌≡◌, refl, ◌⊎◌, inl, inr, false, [], ◌∷◌, none, some}
use quantpaca.Js.Number.{Number, num}
use quantpaca.Js.Text.{Text, text, text_eq, to_upper, to_lower, trim}
use quantpaca.Trading.State.{map_broker_status_to_trade_state, filled, risk_rejected}
use quantpaca.Trading.Types.{buy, ExitPlan, close, market_sell, approved, passed, automation}
use quantpaca.Trading.Symbol.{validate_symbol, is_ticker}
use quantpaca.Trading.Config.{Environment, build_broker_config_from_env}
use quantpaca.Trading.Pipeline.{
  BrokerOutcome, returned, SubmitTradeInput, Surroundings, submit_trade_through_pipeline,
  client_order_id_of, base_trade,
}
use quantpaca.Trading.Gate.{IsAdmitted, Shows, submissions_gate, submitted_state}

abbrev pub plan : ExitPlan
plan = record {
  initial_stop_loss_price = num 95;
  take_profit_price = some (num 115);
  trailing_stop_percent = some (num 10);
  entry_price = some (num 100);
  time_exit_at = num 1700000000000;
  thesis_invalidation = text "NVDA";
  regime_change_action = close;
  emergency_action = market_sell;
}

abbrev live_env : Environment
live_env = record {
  trading_mode = some (text "live");
  alpaca_api_key = some (text "key");
  alpaca_secret_key = some (text "secret");
  live_trading_enabled = some (text "true");
  alpaca_base_url = none;
}

abbrev input : SubmitTradeInput
input = record {
  request = record {
    source = automation;
    symbol = text " nvda ";
    side = buy;
    qty = num 3;
    estimated_price = num 100;
    reasoning = text "thesis";
    actor = none;
    cross_source_conflict = false;
  };
  broker_config = build_broker_config_from_env live_env;
  risk_decision = record { status = approved; reason = passed; adjusted_qty = none };
  exit_plan = some plan;
}

abbrev pub around : Surroundings
around = record {
  clock = λ _. num 1650000000000;
  trade_id = text "tr-1";
  event_id = λ _. text "ae-1";
}

abbrev pub hash : Text → Text
hash t = t

abbrev pub show : Number → Text
show _ = text "3"

abbrev broker : Text → BrokerOutcome
broker _ = returned (record {
  id = some (text "order-1");
  status = some (text "filled");
  legs = some (some (text "leg-1") ∷ none ∷ []);
})

input-IsAdmitted : IsAdmitted input
unfolding validate_symbol is_ticker text text_eq trim to_upper build_broker_config_from_env
input-IsAdmitted = record {
  symbol_valid = refl;
  planned = refl;
  cleared = inl refl;
  mode_open = inr refl;
}

submissions_gate_example :
    let run = submit_trade_through_pipeline hash show broker input around in
    (IsAdmitted input
      × (run.submissions ≡ client_order_id_of hash show input (around.clock 0) ∷ []))
    ⊎ ((¬ IsAdmitted input)
        × (run.submissions ≡ [])
        × (run.trade ≡ record (base_trade hash show input around) { status = risk_rejected }))
submissions_gate_example = submissions_gate hash show broker input around

submitted_state_example :
    Shows
      (broker (client_order_id_of hash show input (around.clock 0)))
      (base_trade hash show input around)
      (submit_trade_through_pipeline hash show broker input around).trade
submitted_state_example = submitted_state hash show broker input around input-IsAdmitted

fills : (submit_trade_through_pipeline hash show broker input around).trade.status ≡ filled
unfolding submit_trade_through_pipeline validate_symbol is_ticker text text_eq trim to_upper
    build_broker_config_from_env map_broker_status_to_trade_state to_lower
fills = refl
