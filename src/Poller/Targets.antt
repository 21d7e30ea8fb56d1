-- ===== src/Poller/Targets.antt =====
-- src/server/orderStatusPoller.ts, `selectPollTargets`.
use quantpaca.Base.{
  ℕ, Bool, true, false, not, ◌&&◌, List, [], ◌∷◌, ◌++◌, Option, none, some, if◌then◌else◌, ltb,
  length, take,
}
use quantpaca.Js.Number.{Number, is_finite, lt, num}
use quantpaca.Js.Text.{Text, text_eq, filled as is_filled}
use quantpaca.Trading.State.{
  TradeState, broker_submitted, accepted, partially_filled, filled, rejected, canceled, expired,
}
use quantpaca.Trading.Types.{PipelineTrade}

-- `POLLABLE_TRADE_STATES`
unfoldable pub is_pollable : TradeState → Bool
is_pollable broker_submitted = true
is_pollable accepted = true
is_pollable partially_filled = true
is_pollable _ = false

-- `isTerminalTradeState`
unfoldable pub is_terminal_trade_state : TradeState → Bool
is_terminal_trade_state filled = true
is_terminal_trade_state rejected = true
is_terminal_trade_state canceled = true
is_terminal_trade_state expired = true
is_terminal_trade_state _ = false

pub data TargetKind : Type 0 where
  entry leg : TargetKind

pub record PollTarget : Type 0 where
  pub kind : TargetKind
  pub trade_id : Text
  pub order_id : Text
  pub timestamp : Number

-- `states[id]`
unfoldable pub leg_state : Text → List (Text × TradeState) → Option TradeState
leg_state id [] = none
leg_state id ((j, s) ∷ l) = if text_eq j id then some s else leg_state id l

-- A leg is polled unless its recorded state is a terminal one.
unfoldable pub is_open_leg : Option TradeState → Bool
unfolding is_terminal_trade_state
is_open_leg none = true
is_open_leg (some s) = not (is_terminal_trade_state s)

leg_candidates : PipelineTrade → List Text → List PollTarget
leg_candidates trade [] = []
leg_candidates trade (id ∷ ids) =
    let rest = leg_candidates trade ids in
    if is_open_leg (leg_state id trade.broker_leg_states)
    then record { kind = leg; trade_id = trade.id; order_id = id; timestamp = trade.timestamp }
      ∷ rest
    else rest

own_candidate : PipelineTrade → Option Text → List PollTarget
own_candidate trade none = []
own_candidate trade (some order) =
    if is_filled order && is_pollable trade.status
    then record { kind = entry; trade_id = trade.id; order_id = order; timestamp = trade.timestamp }
      ∷ []
    else []

leg_ids_of : Option (List Text) → List Text
leg_ids_of none = []
leg_ids_of (some ids) = ids

unfoldable pub candidates_of : PipelineTrade → List PollTarget
unfolding own_candidate leg_candidates leg_ids_of
candidates_of trade =
    own_candidate trade trade.broker_order_id
    ++ leg_candidates trade (leg_ids_of trade.broker_leg_order_ids)

unfoldable pub candidates : List PipelineTrade → List PollTarget
unfolding candidates_of
candidates [] = []
candidates (t ∷ ts) = candidates_of t ++ candidates ts

-- An unreadable timestamp sorts as the oldest.
unfoldable pub sortable_time : Number → Number
sortable_time t = if is_finite t then t else num 0

-- `sort` is stable, and its comparator's difference is negative exactly if the first time is less.
unfoldable pub insert_target : PollTarget → List PollTarget → List PollTarget
unfolding sortable_time
insert_target t [] = t ∷ []
insert_target t (u ∷ us) =
    let later = insert_target t us in
    if lt (sortable_time u.timestamp) (sortable_time t.timestamp) then u ∷ later else t ∷ u ∷ us

unfoldable pub sort_targets : List PollTarget → List PollTarget
unfolding insert_target
sort_targets [] = []
sort_targets (t ∷ ts) = insert_target t (sort_targets ts)

pub record PollSelection : Type 0 where
  pub targets : List PollTarget
  pub capped : Bool
  pub total_candidates : ℕ

abbrev pub max_orders_per_poll_cycle : ℕ
max_orders_per_poll_cycle = 25

unfoldable pub select_poll_targets : List PipelineTrade → ℕ → PollSelection
unfolding sort_targets candidates
select_poll_targets trades max_orders =
    let found = candidates trades in
    record {
      targets = take max_orders (sort_targets found);
      capped = ltb max_orders (length found);
      total_candidates = length found;
    }
