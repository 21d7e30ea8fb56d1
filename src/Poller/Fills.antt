-- ===== src/Poller/Fills.antt =====
-- What a poll may make of a trade and of its bracket legs.
use quantpaca.Base.{
  ◌≡◌, refl, ap, ◌⊎◌, inl, inr, true, false, List, [], ◌∷◌, none, some, arith, is_some, Bool-cases,
}
use quantpaca.Js.Number.{Number}
use quantpaca.Js.Text.{Text, text_eq, text_eq_refl}
use quantpaca.Trading.State.{TradeState, filled, map_broker_status_to_trade_state}
use quantpaca.Trading.Types.{PipelineTrade, sell}
use quantpaca.Poller.Targets.{leg_state, is_open_leg}
use quantpaca.Poller.Fetch.{BrokerOrderPollResult}
use quantpaca.Poller.Apply.{TradePollOutcome, implies_fill, apply_trade_poll_result}
use quantpaca.Poller.Legs.{set_leg_state, synthetic_id, apply_leg_poll_result}

-- What one poll leaves: nothing but the note of an error, or the broker's own state, with the
-- broker's own quantity if that state says that shares were filled.
abbrev pub IsHonest : PipelineTrade → BrokerOrderPollResult → TradePollOutcome → Type 0
IsHonest trade poll o =
    ((o.trade ≡ record trade { last_poll_error = o.trade.last_poll_error })
      × (o.audit_events ≡ [])
      × (o.should_cancel_stale_partial ≡ false)
      × (is_some o.unusable_reason ≡ true))
    ⊎ ((o.trade.status ≡ map_broker_status_to_trade_state poll.status)
        × ((implies_fill o.trade.status ≡ true)
              × (is_some poll.filled_qty ≡ true)
              × (o.trade.filled_qty ≡ poll.filled_qty)
            ⊎ (implies_fill o.trade.status ≡ false)
              × (o.trade.filled_qty ≡ trade.filled_qty)
              × (o.trade.remaining_qty ≡ trade.remaining_qty))
        × (o.trade.qty ≡ trade.qty)
        × (o.trade.exit_plan ≡ trade.exit_plan)
        × (o.unusable_reason ≡ none))

-- A poll never invents a fill: it leaves the trade but for an error note, or takes over the broker's
-- state, and with a filled or partly filled state the quantity that the broker reports.
pub apply_trade_poll_result-IsHonest :
    (trade : PipelineTrade) (poll : BrokerOrderPollResult) (now : Number)
    → IsHonest trade poll (apply_trade_poll_result trade poll now)
unfolding apply_trade_poll_result
apply_trade_poll_result-IsHonest trade poll now = ground arith

leg_state-set_self :
    (id : Text) (s : TradeState) (l : List (Text × TradeState))
    → leg_state id (set_leg_state id s l) ≡ some s
unfolding leg_state set_leg_state
leg_state-set_self id s [] = rw (text_eq_refl id)
leg_state-set_self id s ((j, t) ∷ l) = elim (Bool-cases (text_eq j id)) [
  | inl same ↦ rw (same, same)
  | inr other ↦ rw (other, other) (leg_state-set_self id s l)
]

-- A leg that the broker reports as filled with its quantity is recorded as filled, so that it is not
-- polled again; the owning plan is complete; and the ledger entry sells that quantity of the
-- symbol under an id that depends on the leg alone.
pub leg_fill :
    (trade : PipelineTrade) (leg : Text) (poll : BrokerOrderPollResult) (at quantity : Number)
    → map_broker_status_to_trade_state poll.status ≡ filled
    → poll.filled_qty ≡ some quantity
    → let o = apply_leg_poll_result trade leg poll at in
      (leg_state leg o.trade.broker_leg_states ≡ some filled)
      × (is_open_leg (leg_state leg o.trade.broker_leg_states) ≡ false)
      × (o.trade.exit_plan_complete ≡ true)
      × (o.trade.status ≡ trade.status)
      × (entry : PipelineTrade) × (o.synthetic_sell_trade ≡ some entry)
      × (entry.id ≡ synthetic_id leg)
      × (entry.symbol ≡ trade.symbol)
      × (entry.side ≡ sell)
      × (entry.status ≡ filled)
      × (entry.filled_qty ≡ some quantity)
unfolding apply_leg_poll_result is_open_leg
leg_fill trade leg poll at quantity h q =
    let recorded = leg_state-set_self leg filled trade.broker_leg_states in
    rw (h, q) (recorded, ap is_open_leg recorded, refl, refl, _, refl, refl, refl, refl, refl, refl)
