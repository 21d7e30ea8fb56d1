-- ===== src/Sync/Ledger.antt =====
-- The trades that `runSyncCycle` in src/server.ts hands to the position reconciliation, and the
-- filled part of an order whose remainder is canceled.
use quantpaca.Base.{◌≡◌, refl, ap, ◌∙◌, true, List, [], ◌∷◌, Option, none, some, arith}
use quantpaca.Js.Number.{Number, is_finite}
use quantpaca.Js.Text.{Text, text, text_eq}
use quantpaca.Js.Value.{Value}
use quantpaca.NumericSafety.{parse_finite_number, numeric_value}
use quantpaca.Trading.State.{
  TradeState, pending_approval, broker_submitted, accepted, partially_filled, filled, rejected,
  canceled, expired, broker_failed, risk_rejected, approval_rejected, unknown_broker_state,
  map_broker_status_to_trade_state,
}
use quantpaca.Trading.Types.{PipelineTrade}
use quantpaca.Poller.Fetch.{BrokerOrderPollResult}
use quantpaca.Poller.Apply.{apply_trade_poll_result}
use quantpaca.Reconciliation.{
  LocalTrade, ExpectedPositions, counts_as_position, counted_quantity, add_to, signed, book,
  book_trade, book_trades, add_baselines, floored, compute_expected_positions,
}

unfoldable pub state_text : TradeState → Text
state_text pending_approval = text "PendingApproval"
state_text broker_submitted = text "BrokerSubmitted"
state_text accepted = text "Accepted"
state_text partially_filled = text "PartiallyFilled"
state_text filled = text "Filled"
state_text rejected = text "Rejected"
state_text canceled = text "Canceled"
state_text expired = text "Expired"
state_text broker_failed = text "BrokerFailed"
state_text risk_rejected = text "RiskRejected"
state_text approval_rejected = text "ApprovalRejected"
state_text unknown_broker_state = text "UnknownBrokerState"

optional_number : Option Number → Option Value
optional_number none = none
optional_number (some n) = some (Value.number n)

-- A stored trade as the reconciliation reads it.
unfoldable pub ledger_trade : PipelineTrade → LocalTrade
unfolding state_text optional_number
ledger_trade trade = record {
  id = trade.id;
  broker_order_id = none;
  symbol = trade.symbol;
  qty = Value.number trade.qty;
  side = trade.side;
  status = state_text trade.status;
  filled_qty = optional_number trade.filled_qty;
}

after_poll : PipelineTrade → BrokerOrderPollResult → Number → PipelineTrade
after_poll trade poll now = (apply_trade_poll_result trade poll now).trade

partial_state :
    (trade : PipelineTrade) (poll : BrokerOrderPollResult) (now n : Number)
    → map_broker_status_to_trade_state poll.status ≡ partially_filled
    → poll.filled_qty ≡ some n
    → ((after_poll trade poll now).status ≡ partially_filled)
      × ((after_poll trade poll now).filled_qty ≡ some n)
      × ((after_poll trade poll now).symbol ≡ trade.symbol)
      × ((after_poll trade poll now).side ≡ trade.side)
unfolding after_poll apply_trade_poll_result
partial_state trade poll now n h q = ground (arith, h, q)

canceled_state :
    (trade : PipelineTrade) (poll : BrokerOrderPollResult) (now : Number)
    → map_broker_status_to_trade_state poll.status ≡ canceled
    → ((after_poll trade poll now).status ≡ canceled)
      × ((after_poll trade poll now).filled_qty ≡ trade.filled_qty)
unfolding after_poll apply_trade_poll_result
canceled_state trade poll now h = ground (arith, h)

counted :
    (trade : PipelineTrade) (n : Number) (e : ExpectedPositions)
    → trade.status ≡ partially_filled
    → trade.filled_qty ≡ some n
    → is_finite n ≡ true
    → book_trade (ledger_trade trade) e
      ≡ record e { expected = add_to trade.symbol (signed trade.side n) e.expected }
unfolding book_trade ledger_trade state_text counts_as_position counted_quantity book
    parse_finite_number optional_number text text_eq numeric_value
counted trade n e h q finite = rw (h, q, finite) refl

not_counted :
    (trade : PipelineTrade) (e : ExpectedPositions)
    → trade.status ≡ canceled
    → book_trade (ledger_trade trade) e ≡ e
unfolding book_trade ledger_trade state_text counts_as_position text text_eq
not_counted trade e h = rw h refl

-- The shares of a partly filled order are booked as held after the poll that reports them; the poll
-- that then confirms the cancellation of the remainder keeps the filled quantity on the trade, but the
-- expected positions are those of the other trades alone.
pub canceled_fill_drops :
    (trade : PipelineTrade) (partial done : BrokerOrderPollResult) (now later n : Number)
    (before : ExpectedPositions) (others : List LocalTrade) (baselines : List (Text × Value))
    → map_broker_status_to_trade_state partial.status ≡ partially_filled
    → partial.filled_qty ≡ some n
    → is_finite n ≡ true
    → map_broker_status_to_trade_state done.status ≡ canceled
    → let first = (apply_trade_poll_result trade partial now).trade in
      let second = (apply_trade_poll_result first done later).trade in
      (book_trade (ledger_trade first) before
        ≡ record before { expected = add_to trade.symbol (signed trade.side n) before.expected })
      × (second.filled_qty ≡ some n)
      × (compute_expected_positions (ledger_trade second ∷ others) baselines
          ≡ compute_expected_positions others baselines)
unfolding after_poll compute_expected_positions book_trades
canceled_fill_drops trade partial done now later n before others baselines h q finite c =
    let first = (apply_trade_poll_result trade partial now).trade in
    let second = (apply_trade_poll_result first done later).trade in
    let (partly, quantity, symbol, side) = partial_state trade partial now n h q in
    let (gone, kept) = canceled_state first done later c in
    (
      counted first n before partly quantity finite
          ∙ ap (λ s. record before { expected = add_to s (signed first.side n) before.expected })
              symbol
          ∙ ap (λ s. record before { expected = add_to trade.symbol (signed s n) before.expected })
              side,
      kept ∙ quantity,
      ap
          (λ (e : ExpectedPositions).
            let booked = book_trades others e in
            record booked { expected = floored (add_baselines baselines booked.expected) })
          (not_counted second (record { expected = []; ledger_gaps = [] }) gone),
    )
