-- ===== src/Tests/Sync.antt =====
-- The sync cycle at concrete inputs.
use quantpaca.Base.{◌≡◌, ◌≢◌, ◌⊎◌, refl, ◌≤◌, true, false, List, [], ◌∷◌, none, some}
use quantpaca.Js.Number.{num, is_finite}
use quantpaca.Js.Text.{text, text_eq, to_lower}
use quantpaca.Js.Value.{Value, Fields}
use quantpaca.Risk.Portfolio.{ok as untripped, AlpacaPosition}
use quantpaca.Breaker.Engine.{BreakerState}
use quantpaca.Breaker.Latch.{apply_breaker_latch, status_rank}
use quantpaca.Breaker.Holds.{latch_after}
use quantpaca.Portfolio.{AlpacaAccount}
use quantpaca.Liquidation.{no_entry}
use quantpaca.Signals.{buy}
use quantpaca.Execution.Decision.{evaluate_fresh_breaker}
use quantpaca.Trading.State.{map_broker_status_to_trade_state, partially_filled}
use quantpaca.Poller.Fetch.{BrokerOrderPollResult}
use quantpaca.Poller.Apply.{apply_trade_poll_result}
use quantpaca.Reconciliation.{add_to, signed, book_trade, compute_expected_positions}
use quantpaca.Sync.Ledger.{ledger_trade, canceled_fill_drops}
use quantpaca.Sync.Reads.{FetchError, fetched, unfetched}
use quantpaca.Sync.Reset.{BreakerReset, perform_breaker_reset, perform_breaker_reset_lem}
use quantpaca.Sync.Drift.{DriftInput, reconcile_positions}
use quantpaca.Sync.Drift.Blocks.{Settles, reconcile_positions_lem}
use quantpaca.Sync.Automation.{CycleSettings, Analysis}
use quantpaca.Tests.Trading.{show}
use quantpaca.Tests.Execution.{ctx, account}
use quantpaca.Tests.Poller.{entry_trade, canceled_poll, canceled_sample}
use quantpaca.Tests.Monitor.{uncancelable, filled_leg}

perform_breaker_reset_lem_example :
    let fresh = evaluate_fresh_breaker show show ctx account in
    (r : BreakerReset) × (perform_breaker_reset show show ctx ≡ some r)
    × (r.status ≡ fresh.status)
    × ((fresh.status ≡ untripped)
          × (r.re_tripped ≡ false)
          × ((next : BreakerState) → (apply_breaker_latch next r.saved.latch).effective ≡ next)
        ⊎ (fresh.status ≢ untripped)
          × (r.re_tripped ≡ true)
          × ((fs : List BreakerState) (last : BreakerState)
              → status_rank fresh.status
                ≤ status_rank
                    (apply_breaker_latch last (latch_after r.saved.latch fs)).effective.status))
perform_breaker_reset_lem_example = perform_breaker_reset_lem show show ctx account refl

-- A position that no trade explains.
abbrev stray : AlpacaPosition
stray = record { symbol = text "NVDA"; qty = text "3"; market_value = text "300" }

abbrev drift : DriftInput
drift = record {
  ctx = ctx;
  fetch = fetched account (stray ∷ []);
  trades = [];
  baselines = some (Value.object (Fields.field (text "AMD") (Value.number (num 1)) Fields.end));
}

reconcile_positions_lem_example :
    let stage = reconcile_positions show show drift in
    ((broker_account : AlpacaAccount) × (positions : List AlpacaPosition) × (drift.fetch
        ≡ fetched broker_account positions)
      × Settles show show drift stage broker_account positions)
    ⊎ ((error : FetchError) × (drift.fetch ≡ unfetched error)
        × (stage.connectivity_failed ≡ true)
        × (stage.report ≡ none)
        × (stage.saved ≡ none))
reconcile_positions_lem_example = reconcile_positions_lem show show drift refl

abbrev settings : CycleSettings
settings = record {
  auto_trading = true;
  stop_loss_percent = num 5;
  max_position_size_percent = num 10;
  max_portfolio_exposure_percent = num 80;
  min_buying_power = num 100;
}

abbrev analysis : Analysis
analysis = record {
  symbol = text "NVDA";
  signal_symbol = text "NVDA";
  decision = buy;
  confidence_score = num 90;
  cross_source_conflict = false;
  buy_reasoning = text "thesis";
  sell_reasoning = text "reversal";
  portfolio = some account;
  price = num 100;
  do_not_buy = some [];
  open_orders = some [];
  regime_inputs = record {
    spy_trend_percent = some (num 2);
    qqq_trend_percent = some (num 2);
    broad_market_drawdown_percent = some (num 0);
    volatility_proxy_percent = some (num 10);
    btc_trend_percent = none;
    symbol = none;
  };
  ctx = ctx;
  legs = no_entry;
  cancel_order = uncancelable;
  poll_order = filled_leg;
}

-- Four of ten shares are filled, and the remainder is canceled.
abbrev partial_poll : BrokerOrderPollResult
partial_poll = record canceled_poll { status = some (text "partially_filled") }

partial_sample :
    map_broker_status_to_trade_state (some (text "partially_filled")) ≡ partially_filled
unfolding map_broker_status_to_trade_state text text_eq to_lower
partial_sample = refl

four_finite : is_finite (num 4) ≡ true
unfolding is_finite num
four_finite = refl

canceled_fill_drops_example :
    let first = (apply_trade_poll_result entry_trade partial_poll (num 1650000060000)).trade in
    let second = (apply_trade_poll_result first canceled_poll (num 1650000120000)).trade in
    (book_trade (ledger_trade first) (record { expected = []; ledger_gaps = [] })
      ≡ record { expected = add_to (text "NVDA") (num 4) []; ledger_gaps = [] })
    × (second.filled_qty ≡ some (num 4))
    × (compute_expected_positions (ledger_trade second ∷ []) [] ≡ compute_expected_positions [] [])
unfolding signed
canceled_fill_drops_example =
    canceled_fill_drops entry_trade partial_poll canceled_poll (num 1650000060000)
      (num 1650000120000) (num 4) (record { expected = []; ledger_gaps = [] }) [] [] partial_sample
      refl four_finite canceled_sample
