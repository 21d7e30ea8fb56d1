-- ===== src/Poller/Cycle.antt =====
-- src/server/orderStatusPoller.ts, `pollPendingOrders`. Fetching and canceling orders are
-- parameters; every cancellation asked for and every trade saved is recorded in order.
use quantpaca.Base.{
  ℕ, suc, Bool, true, false, not, ◌&&◌, List, [], ◌∷◌, ◌++◌, Option, none, some, if◌then◌else◌,
  or_else, is_some, any, length,
}
use quantpaca.Js.Number.{Number, num}
use quantpaca.Js.Text.{Text, text_eq, filled as is_filled}
use quantpaca.Trading.Types.{
  PipelineTrade, broker, Message, poll_capped, remainder_canceled, cancel_failed, fetch_failed,
}
use quantpaca.Poller.Targets.{
  PollTarget, TargetKind, entry, leg, PollSelection, select_poll_targets,
}
use quantpaca.Poller.Fetch.{BrokerOrderPollResult}
use quantpaca.Poller.Apply.{PartialAuditEvent, TradePollOutcome, apply_trade_poll_result}
use quantpaca.Poller.Legs.{apply_leg_poll_result}

pub record CancelResult : Type 0 where
  pub ok : Bool
  pub status : Option Number

-- The working copies by id in their order, the ids touched, and what was done so far.
pub record PollState : Type 0 where
  pub working : List (Text × PipelineTrade)
  pub touched : List Text
  pub saved : List PipelineTrade
  pub cancels : List Text
  pub audit_events : List PartialAuditEvent
  pub errors : ℕ

unfoldable pub working_get : Text → List (Text × PipelineTrade) → Option PipelineTrade
working_get id [] = none
working_get id ((j, t) ∷ l) = if text_eq j id then some t else working_get id l

unfoldable pub working_set :
    Text → PipelineTrade → List (Text × PipelineTrade) → List (Text × PipelineTrade)
working_set id t [] = (id, t) ∷ []
working_set id t ((j, u) ∷ l) = if text_eq j id then (j, t) ∷ l else (j, u) ∷ working_set id t l

abbrev touch : Text → List Text → List Text
touch id ids = if any (λ j. text_eq j id) ids then ids else ids ++ (id ∷ [])

-- `working.set(trade.id, trade); touched.add(trade.id)`
unfoldable pub keep_trade : PipelineTrade → PollState → PollState
unfolding working_set
keep_trade trade st = record st {
  working = working_set trade.id trade st.working;
  touched = touch trade.id st.touched;
}

abbrev cancel_event : PipelineTrade → Message → PartialAuditEvent
cancel_event trade message = record {
  kind = broker;
  entity_id = some trade.id;
  from_state = none;
  to_state = none;
  message = message;
}

-- After the cancellation of a stale remainder was asked for.
unfoldable pub after_cancel : PipelineTrade → Text → CancelResult → PollState → PollState
unfolding keep_trade
after_cancel trade order result st =
    if result.ok
    then keep_trade
        (record trade { qty = or_else trade.filled_qty (num 0); remaining_qty = some (num 0) })
        (record st {
          cancels = st.cancels ++ (order ∷ []);
          audit_events =
              st.audit_events
              ++ (cancel_event trade
                    (remainder_canceled trade.symbol (or_else trade.filled_qty (num 0)) trade.qty)
                  ∷ []);
        })
    else keep_trade trade (record st {
      cancels = st.cancels ++ (order ∷ []);
      errors = suc st.errors;
      audit_events =
          st.audit_events
          ++ (cancel_event trade (cancel_failed trade.symbol order result.status) ∷ []);
    })

count_error : Bool → ℕ → ℕ
count_error true n = suc n
count_error false n = n

-- The order to cancel: that of a stale partial fill, where it has an id.
unfoldable pub order_to_cancel : TradePollOutcome → Option Text
order_to_cancel outcome = elim outcome.trade.broker_order_id [
  | none ↦ none
  | some order ↦ if outcome.should_cancel_stale_partial && is_filled order then some order else none
]

unfoldable pub poll_entry :
    (Text → CancelResult) → PipelineTrade → BrokerOrderPollResult → Number → PollState → PollState
unfolding after_cancel keep_trade count_error order_to_cancel
poll_entry cancel_order trade poll now st =
    let outcome = apply_trade_poll_result trade poll now in
    let st' = record st {
      audit_events = st.audit_events ++ outcome.audit_events;
      errors = count_error (is_some outcome.unusable_reason) st.errors;
    } in
    elim (order_to_cancel outcome) [
      | none ↦ keep_trade outcome.trade st'
      | some order ↦ after_cancel outcome.trade order (cancel_order order) st'
    ]

abbrev saves : Option PipelineTrade → List PipelineTrade
saves none = []
saves (some t) = t ∷ []

unfoldable pub poll_leg :
    PipelineTrade → Text → BrokerOrderPollResult → Number → PollState → PollState
unfolding keep_trade count_error
poll_leg trade order poll now st =
    let outcome = apply_leg_poll_result trade order poll now in
    keep_trade outcome.trade (record st {
      audit_events = st.audit_events ++ outcome.audit_events;
      errors = count_error (is_some outcome.unusable_reason) st.errors;
      saved = st.saved ++ saves outcome.synthetic_sell_trade;
    })

-- A poll that failed: only the error is noted on the trade.
unfoldable pub poll_failed : PipelineTrade → BrokerOrderPollResult → PollState → PollState
unfolding keep_trade
poll_failed trade poll st =
    keep_trade (record trade { last_poll_error = some (fetch_failed poll.error_message) })
      (record st { errors = suc st.errors })

abbrev by_kind :
    (Text → CancelResult)
    → TargetKind
    → PipelineTrade
    → Text
    → BrokerOrderPollResult
    → Number
    → PollState
    → PollState
by_kind cancel_order entry trade order poll now st = poll_entry cancel_order trade poll now st
by_kind cancel_order leg trade order poll now st = poll_leg trade order poll now st

-- One round of the loop over the targets.
unfoldable pub poll_target :
    (Text → CancelResult) → PollTarget → BrokerOrderPollResult → Number → PollState → PollState
unfolding poll_entry poll_leg poll_failed working_get
poll_target cancel_order target poll now st = elim (working_get target.trade_id st.working) [
  | none ↦ st
  | some trade ↦
      if poll.ok
      then by_kind cancel_order target.kind trade target.order_id poll now st
      else poll_failed trade poll st
]

module _ (fetch : Text → BrokerOrderPollResult) (cancel_order : Text → CancelResult) where
  -- The clock is read once a round at most.
  unfoldable pub poll_targets : (ℕ → Number) → ℕ → List PollTarget → PollState → PollState
  poll_targets clock n [] st = st
  poll_targets clock n (t ∷ ts) st =
      poll_targets clock (suc n) ts (poll_target cancel_order t (fetch t.order_id) (clock n) st)

-- `new Map` over the trades: a later trade of the same id takes the place of an earlier one.
unfoldable pub working_of :
    List PipelineTrade → List (Text × PipelineTrade) → List (Text × PipelineTrade)
unfolding working_set
working_of [] l = l
working_of (t ∷ ts) l = working_of ts (working_set t.id t l)

-- The saves after the loop, in the order of touching.
unfoldable pub final_saves : List Text → List (Text × PipelineTrade) → List PipelineTrade
unfolding working_get
final_saves [] l = []
final_saves (id ∷ ids) l = saves (working_get id l) ++ final_saves ids l

cap_events : PollSelection → List PartialAuditEvent
cap_events selection =
    if selection.capped
    then record {
      kind = broker;
      entity_id = none;
      from_state = none;
      to_state = none;
      message = poll_capped selection.total_candidates (length selection.targets);
    }
      ∷ []
    else []

abbrev initial_state : List PipelineTrade → List PartialAuditEvent → PollState
initial_state trades events = record {
  working = working_of trades [];
  touched = [];
  saved = [];
  cancels = [];
  audit_events = events;
  errors = 0;
}

module _ (fetch : Text → BrokerOrderPollResult) (cancel_order : Text → CancelResult)
    (clock : ℕ → Number) where
  -- The loop over the selected targets and the saves after it; with no target nothing happens.
  unfoldable pub poll_selected : List PipelineTrade → PollSelection → List PollTarget → PollState
  unfolding cap_events
  poll_selected trades selection [] = initial_state trades []
  poll_selected trades selection (t ∷ ts) =
      let done =
        poll_targets fetch cancel_order clock 0 (t ∷ ts)
          (initial_state trades (cap_events selection)) in
      record done { saved = done.saved ++ final_saves done.touched done.working }

  unfoldable pub poll_pending_orders : Bool → List PipelineTrade → ℕ → PollState
  unfolding poll_selected
  poll_pending_orders configured trades max_orders =
      if not configured
      then initial_state trades []
      else let selection = select_poll_targets trades max_orders in
        poll_selected trades selection selection.targets
