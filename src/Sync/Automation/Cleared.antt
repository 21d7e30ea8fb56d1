-- ===== src/Sync/Automation/Cleared.antt =====
-- The checks that a submitted trade of `runSyncCycle` in src/server.ts has passed.
use quantpaca.Base.{ℕ, ◌+◌, ◌≤◌, ◌≡◌, ◌⊎◌, true, false, List, [], ◌∷◌, none, some}
use quantpaca.Js.Number.{Number, num, lt, le, is_finite}
use quantpaca.Js.Text.{Text}
use quantpaca.Trading.Types.{Side, TradeRequest, DoNotBuyEntry}
use quantpaca.Risk.Portfolio.{AlpacaPosition, OpenOrder}
use quantpaca.Portfolio.{AlpacaAccount}
use quantpaca.Scheduler.{max_buys_per_cycle}
use quantpaca.Execution.Context.{number_of}
use quantpaca.Liquidation.{sell_risk_preflight, cancel_bracket_legs_before_sell}
use quantpaca.Signals.{buy, sell}
use quantpaca.Sync.Automation.{
  sized_buy, CycleSettings, Analysis, Outcome, submitted, entry_for, position_for, buy_request,
  sell_request, is_usable,
}

abbrev pub side_count : Side → ℕ
side_count Side.buy = 1
side_count Side.sell = 0

-- One for a submitted buy.
abbrev pub buy_count : Outcome → ℕ
buy_count (submitted request) = side_count request.side
buy_count _ = 0

unfoldable pub count_buys : List Outcome → ℕ
count_buys [] = 0
count_buys (o ∷ os) = buy_count o + count_buys os

module _ (parse_int : Text → Number) (settings : CycleSettings) where
  -- What a submitted buy has passed: the settings, the lists that were read, and the sizing, whose
  -- quantity it asks for.
  pub record IsClearedBuy (item : Analysis) (request : TradeRequest) : Type 0 where
    pub decided : item.decision ≡ buy
    pub account : AlpacaAccount
    pub read : item.portfolio ≡ some account
    pub valued : is_usable (number_of account.portfolio_value) ≡ true
    pub listed :
        (entries : List DoNotBuyEntry) × (item.do_not_buy ≡ some entries)
        × (entry_for item.symbol entries ≡ none)
    pub orders : List OpenOrder
    pub ordered : item.open_orders ≡ some orders
    pub finite_stop : is_finite settings.stop_loss_percent ≡ true
    pub positive_stop : le settings.stop_loss_percent (num 0) ≡ false
    pub at_least_one : lt (sized_buy settings item account orders).qty (num 1) ≡ false
    pub request_of : request ≡ buy_request item (sized_buy settings item account orders).qty

  -- What a submitted sell has passed.
  pub record IsClearedSell (item : Analysis) (request : TradeRequest) : Type 0 where
    pub decided : item.decision ≡ sell
    pub account : AlpacaAccount
    pub read : item.portfolio ≡ some account
    pub position : AlpacaPosition
    pub held : position_for item.symbol account.positions ≡ some position
    pub request_of : request ≡ sell_request item (parse_int position.qty)
    pub positive : lt (num 0) (parse_int position.qty) ≡ true
    pub preflight : sell_risk_preflight item.ctx account (parse_int position.qty) item.price ≡ none
    pub canceled :
        (cancel_bracket_legs_before_sell item.cancel_order item.poll_order item.ctx.now item.symbol
          item.ctx.broker_config.configured item.legs).ok
        ≡ true

  abbrev pub IsSound : Analysis → Outcome → Type 0
  IsSound item (submitted request) =
      (settings.auto_trading ≡ true)
      × (is_usable item.price ≡ true)
      × (IsClearedBuy item request ⊎ IsClearedSell item request)
  IsSound item _ = Unit

  abbrev pub AllSound : List Analysis → List Outcome → Type 0
  AllSound [] [] = Unit
  AllSound [] (o ∷ os) = ⊥
  AllSound (item ∷ items) [] = ⊥
  AllSound (item ∷ items) (o ∷ os) = IsSound item o × AllSound items os

  -- What one analysis leaves: a sound outcome, and a count of the buys that stays within the cap.
  abbrev pub Keeps : Analysis → ℕ → Outcome × ℕ → Type 0
  Keeps item buys r = IsSound item r.0 × (r.1 ≡ buys + buy_count r.0) × (r.1 ≤ max_buys_per_cycle)
