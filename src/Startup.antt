-- ===== src/Startup.antt =====
-- src/server/startupReconciliation.ts: the check of the broker's open orders at start-up, the gate
-- it holds for buys, and its retries. A log line of the console is left out.
use quantpaca.Base.{
  ℕ, suc, ◌+◌, Bool, true, false, not, ◌&&◌, ◌||◌, List, [], ◌∷◌, ◌++◌, map, Option, none, some,
  if◌then◌else◌, leb, ◌==◌, any, keep, is_some, length, ◌>>=◌,
}
use quantpaca.Js.Number.{Number}
use quantpaca.Js.Text.{Text, text, text_eq, includes, filled as is_filled}
use quantpaca.Js.Value.{Value, Fields, get, as_string, string_of, values_of}
use quantpaca.Trading.Types.{
  Side, buy, sell, PipelineTrade, BuyGate, startup_pending, orphans_found, OrphanOrder, AuditType,
  trade_state, sync, broker, Message, startup_gave_up, startup_complete, orphan_detected,
}
use quantpaca.Poller.Fetch.{BrokerOrderPollResult, FetchOutcome, threw, not_ok, body}
use quantpaca.Poller.Apply.{PartialAuditEvent}
use quantpaca.Poller.Targets.{max_orders_per_poll_cycle, select_poll_targets}
use quantpaca.Poller.Cycle.{CancelResult, PollState, poll_pending_orders}
pub mod Gate
pub mod Retries

abbrev pub reconciliation_retry_interval_ms : ℕ
reconciliation_retry_interval_ms = 300000

abbrev pub reconciliation_max_retry_attempts : ℕ
reconciliation_max_retry_attempts = 12

abbrev pub open_orders_fetch_limit : ℕ
open_orders_fetch_limit = 500

-- The module's variables, `tradingReady` and `orphanOrders`.
pub record GateState : Type 0 where
  pub trading_ready : Bool
  pub orphan_orders : List OrphanOrder

-- As the process starts outside of tests.
abbrev pub closed_gate : GateState
closed_gate = record { trading_ready = false; orphan_orders = [] }

unfoldable pub buy_gate_rejection_reason : Side → GateState → Option BuyGate
buy_gate_rejection_reason sell gate = none
buy_gate_rejection_reason buy gate =
    if not gate.trading_ready
    then some startup_pending
    else if leb 1 (length gate.orphan_orders)
    then some (orphans_found (length gate.orphan_orders))
    else none

-- The state after an admin cleared the orphans, and the orphans cleared.
unfoldable pub clear_orphans : GateState → GateState × List OrphanOrder
clear_orphans gate = (record gate { orphan_orders = [] }, gate.orphan_orders)

-- `if (id) set.add(id)`
added : Option Text → List Text
added none = []
added (some id) = if is_filled id then id ∷ [] else []

legs_of : Option (List Text) → List Text
legs_of none = []
legs_of (some ids) = ids

unfoldable pub known_order_ids : List PipelineTrade → List Text
unfolding added legs_of
known_order_ids [] = []
known_order_ids (t ∷ ts) =
    added t.broker_order_id ++ (legs_of t.broker_leg_order_ids ++ known_order_ids ts)

unfoldable pub known_client_order_ids : List PipelineTrade → List Text
unfolding added
known_client_order_ids [] = []
known_client_order_ids (t ∷ ts) = added t.client_order_id ++ known_client_order_ids ts

abbrev matched : Option Text → List Text → Bool
matched none ids = false
matched (some id) ids = if is_filled id then includes ids id else false

unfoldable pub is_orphan : List Text → List Text → OrphanOrder → Bool
is_orphan order_ids client_ids order =
    not (matched (some order.id) order_ids) && not (matched order.client_order_id client_ids)

unfoldable pub detect_orphan_orders : List OrphanOrder → List PipelineTrade → List OrphanOrder
unfolding is_orphan
detect_orphan_orders open_orders trades =
    keep (is_orphan (known_order_ids trades) (known_client_order_ids trades)) open_orders

-- Why the open orders could not be read.
pub data OpenOrdersError : Type 0 where
  orders_response_code : Number → OpenOrdersError
  not_an_array page_at_limit : OpenOrdersError
  orders_threw : Text → OpenOrdersError

pub data OpenOrdersFetchResult : Type 0 where
  orders_ok : List OrphanOrder → OpenOrdersFetchResult
  orders_failed : OpenOrdersError → OpenOrdersFetchResult

module _ (show_number : Number → Text) where
  read_fields : Fields → OrphanOrder
  read_fields fs = record {
    id = string_of show_number (get (text "id") fs);
    client_order_id = as_string (get (text "client_order_id") fs);
    symbol = as_string (get (text "symbol") fs);
    qty = as_string (get (text "qty") fs);
    side = as_string (get (text "side") fs);
    status = as_string (get (text "status") fs);
  }

  -- Reading a field of null throws; any other value without fields gives undefined.
  read_open_order : Value → Option OrphanOrder
  unfolding read_fields
  read_open_order Value.null = none
  read_open_order Value.undefined = none
  read_open_order (Value.object fs) = some (read_fields fs)
  read_open_order _ = some (read_fields Fields.end)

  read_open_orders : List Value → Option (List OrphanOrder)
  unfolding read_open_order
  read_open_orders [] = some []
  read_open_orders (v ∷ vs) = do
    order ← read_open_order v
    rest ← read_open_orders vs
    some (order ∷ rest)

  -- The message of the engine's TypeError is a text of its own.
  unfoldable pub fetch_open_broker_orders : FetchOutcome → OpenOrdersFetchResult
  unfolding read_open_orders
  fetch_open_broker_orders (threw message) = orders_failed (orders_threw message)
  fetch_open_broker_orders (not_ok code) = orders_failed (orders_response_code code)
  fetch_open_broker_orders (body (Value.array vs)) =
      if leb open_orders_fetch_limit (length (values_of vs))
      then orders_failed page_at_limit
      else elim (read_open_orders (values_of vs)) [
        | none ↦ orders_failed (orders_threw (text "TypeError"))
        | some orders ↦ orders_ok orders
      ]
  fetch_open_broker_orders (body _) = orders_failed not_an_array

pub record AttemptResult : Type 0 where
  pub ok : Bool
  pub polled_count : ℕ
  pub updated_count : ℕ
  pub orphans : List OrphanOrder
  pub audit_events : List PartialAuditEvent

abbrev is_update : PartialAuditEvent → Bool
is_update event = elim event.kind [ trade_state ↦ is_some event.to_state | _ ↦ false ]

-- The end of an attempt, once the poll and the fetch are done; `reread` is the second `listTrades`.
unfoldable pub conclude_attempt :
    ℕ → PollState → OpenOrdersFetchResult → List PipelineTrade → AttemptResult
conclude_attempt polled poll (orders_failed e) reread = record {
  ok = false;
  polled_count = polled;
  updated_count = length (keep is_update poll.audit_events);
  orphans = [];
  audit_events = poll.audit_events;
}
conclude_attempt polled poll (orders_ok orders) reread = record {
  ok = poll.errors == 0;
  polled_count = polled;
  updated_count = length (keep is_update poll.audit_events);
  orphans = if poll.errors == 0 then detect_orphan_orders orders reread else [];
  audit_events = poll.audit_events;
}

-- One attempt. The network, the cancel call, the clock and `listTrades`, which gives the trades
-- after those saved so far, are parameters; a configured broker is asked.
module _ (show_number : Number → Text) (fetch : Text → BrokerOrderPollResult)
    (cancel_order : Text → CancelResult) (clock : ℕ → Number)
    (list_trades : List PipelineTrade → List PipelineTrade) where
  unfoldable pub attempt_startup_reconciliation : FetchOutcome → AttemptResult
  attempt_startup_reconciliation open_orders =
      let trades = list_trades [] in
      let poll =
        poll_pending_orders fetch cancel_order clock true trades max_orders_per_poll_cycle in
      let polled = length (select_poll_targets trades max_orders_per_poll_cycle).targets in
      conclude_attempt polled poll (fetch_open_broker_orders show_number open_orders)
        (list_trades poll.saved)

-- The calls on the injected functions, in order.
pub data StartupEffect : Type 0 where
  append_audit_events : List PartialAuditEvent → StartupEffect
  persist_orphans : List OrphanOrder → StartupEffect
  alert_gave_up : StartupEffect
  alert_orphans : ℕ → StartupEffect
  set_retry_timer : ℕ → StartupEffect
  clear_retry_timer : StartupEffect

-- The gate, whether a timer handle is kept, the attempt that an armed timer will make, and the
-- effects so far.
pub record Boot : Type 0 where
  pub gate : GateState
  pub has_handle : Bool
  pub pending : Option ℕ
  pub effects : List StartupEffect

event_of : AuditType → Message → PartialAuditEvent
event_of kind message = record {
  kind = kind;
  entity_id = none;
  from_state = none;
  to_state = none;
  message = message;
}

-- `if (events.length) appendAuditEvents(events)`
audited : List PartialAuditEvent → List StartupEffect
audited [] = []
audited (e ∷ es) = append_audit_events (e ∷ es) ∷ []

-- What follows where the sweep found orphans.
orphan_effects : List OrphanOrder → List StartupEffect
unfolding event_of
orphan_effects [] = []
orphan_effects (o ∷ os) =
    append_audit_events (map (λ order. event_of broker (orphan_detected order)) (o ∷ os))
    ∷ alert_orphans (length (o ∷ os))
    ∷ []

retry_or_give_up : ℕ → Boot → Boot
unfolding event_of
retry_or_give_up n boot =
    if leb reconciliation_max_retry_attempts n
    then record boot {
      effects =
          boot.effects
          ++ (append_audit_events (event_of sync (startup_gave_up n) ∷ []) ∷ alert_gave_up ∷ []);
    }
    else record boot {
      has_handle = true;
      pending = some (suc n);
      effects = boot.effects ++ (set_retry_timer reconciliation_retry_interval_ms ∷ []);
    }

-- `attemptWithRetry` once the attempt of this number has come out.
unfoldable pub attempt_with_retry : AttemptResult → ℕ → Boot → Boot
unfolding audited orphan_effects event_of retry_or_give_up
attempt_with_retry result n boot =
    let noted = record boot { effects = boot.effects ++ audited result.audit_events } in
    if not result.ok then retry_or_give_up n noted else record noted {
      gate = record { trading_ready = true; orphan_orders = result.orphans };
      effects =
          noted.effects
          ++ (persist_orphans result.orphans
              ∷ append_audit_events (
                  event_of sync (
                    startup_complete result.polled_count result.updated_count
                      (length result.orphans))
                  ∷ [])
              ∷ orphan_effects result.orphans);
    }

-- Before the first attempt: a kept handle is cleared.
unfoldable pub clear_handle : Boot → Boot
clear_handle boot =
    if boot.has_handle
    then record boot {
      has_handle = false;
      pending = none;
      effects = boot.effects ++ (clear_retry_timer ∷ []);
    }
    else boot

-- `runStartupReconciliation`, up to the end of the first attempt.
unfoldable pub run_startup_reconciliation : Bool → AttemptResult → Boot → Boot
unfolding attempt_with_retry clear_handle
run_startup_reconciliation configured result boot =
    if not configured
    then record (clear_handle boot) { gate = record { trading_ready = true; orphan_orders = [] } }
    else attempt_with_retry result 1 (clear_handle boot)

-- The armed timer fires, and its attempt comes out.
unfoldable pub fire_retry : (ℕ → AttemptResult) → Boot → Boot
unfolding attempt_with_retry
fire_retry attempt boot = elim boot.pending [
  | none ↦ boot
  | some n ↦ attempt_with_retry (attempt n) n (record boot { pending = none })
]
