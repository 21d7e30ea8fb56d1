-- ===== src/Trading/State.antt =====
-- src/server/tradingSafety.ts: the states of a trade and the broker's words for them.
use quantpaca.Base.{Bool, true, false, Option, none, some, if◌then◌else◌, ◌||◌}
use quantpaca.Js.Text.{Text, text, text_eq, to_lower}

pub data TradeState : Type 0 where
  pending_approval broker_submitted accepted partially_filled filled : TradeState
  rejected canceled expired broker_failed risk_rejected : TradeState
  approval_rejected unknown_broker_state : TradeState

-- `BROKER_SUCCESS_TRADE_STATUSES`
unfoldable pub is_broker_success : TradeState → Bool
is_broker_success accepted = true
is_broker_success partially_filled = true
is_broker_success filled = true
is_broker_success _ = false

-- The `switch` over the lower-cased broker status.
status_word : Text → TradeState
status_word s =
    if text_eq s (text "accepted") || text_eq s (text "new") || text_eq s (text "pending_new")
    then accepted
    else if text_eq s (text "partially_filled")
    then partially_filled
    else if text_eq s (text "filled")
    then filled
    else if text_eq s (text "rejected")
    then rejected
    else if text_eq s (text "canceled") || text_eq s (text "cancelled")
    then canceled
    else if text_eq s (text "expired")
    then expired
    else unknown_broker_state

unfoldable pub map_broker_status_to_trade_state : Option Text → TradeState
unfolding status_word
map_broker_status_to_trade_state none = unknown_broker_state
map_broker_status_to_trade_state (some status) = status_word (to_lower status)
