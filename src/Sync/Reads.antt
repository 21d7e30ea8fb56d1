-- ===== src/Sync/Reads.antt =====
-- The reads of the broker in src/server.ts: `getAlpacaPortfolio`,
-- `fetchAccountAndPositionsForReconciliation`, `getAlpacaOpenOrders` and
-- `checkMarketOpenForScheduledCycle`. The answer of the network is a parameter.
use quantpaca.Base.{Bool, true, false, List, [], Option, none, some}
use quantpaca.Js.Number.{Number}
use quantpaca.Js.Text.{Text, text}
use quantpaca.Js.Value.{Value, property}
use quantpaca.Risk.Portfolio.{AlpacaPosition, OpenOrder}
use quantpaca.Portfolio.{AlpacaAccount}

-- An answer: the error that was thrown on the way, a status that is not ok, a body that has not the
-- expected shape, or what the body holds.
pub data Answer {ℓ} (A : Type ℓ) : Type ℓ where
  threw : Text → Answer A
  refused : Number → Answer A
  odd_body : Answer A
  answered : A → Answer A

with_positions : AlpacaAccount → Answer (List AlpacaPosition) → Option AlpacaAccount
with_positions account (answered positions) = some (record account { positions = positions })
with_positions account (refused status) = some (record account { positions = [] })
with_positions account (threw message) = none
with_positions account odd_body = none

-- `getAlpacaPortfolio`, `none` where it throws. A refused request for positions counts as none held.
unfoldable pub get_alpaca_portfolio :
    Bool
    → AlpacaAccount
    → Answer AlpacaAccount
    → Answer (List AlpacaPosition)
    → Option AlpacaAccount
unfolding with_positions
get_alpaca_portfolio false simulated account positions = some simulated
get_alpaca_portfolio true simulated (answered account) positions = with_positions account positions
get_alpaca_portfolio true simulated _ positions = none

pub data FetchError : Type 0 where
  account_refused positions_refused : Number → FetchError
  positions_no_array : FetchError
  fetch_threw : Text → FetchError

-- What the reconciliation compares with, or why it cannot.
pub data ReconciliationFetch : Type 0 where
  fetched : AlpacaAccount → List AlpacaPosition → ReconciliationFetch
  unfetched : FetchError → ReconciliationFetch

fetched_positions : AlpacaAccount → Answer (List AlpacaPosition) → ReconciliationFetch
fetched_positions account (answered positions) = fetched account positions
fetched_positions account (refused status) = unfetched (positions_refused status)
fetched_positions account odd_body = unfetched positions_no_array
fetched_positions account (threw message) = unfetched (fetch_threw message)

-- An account body that is no object throws where its fields are read.
unfoldable pub fetch_account_and_positions_for_reconciliation :
    Answer AlpacaAccount → Answer (List AlpacaPosition) → ReconciliationFetch
unfolding fetched_positions
fetch_account_and_positions_for_reconciliation (answered account) positions =
    fetched_positions account positions
fetch_account_and_positions_for_reconciliation (refused status) positions =
    unfetched (account_refused status)
fetch_account_and_positions_for_reconciliation (threw message) positions =
    unfetched (fetch_threw message)
fetch_account_and_positions_for_reconciliation odd_body positions = unfetched (fetch_threw [])

-- `getAlpacaOpenOrders`, `none` where it throws.
unfoldable pub get_alpaca_open_orders : Bool → Answer (List OpenOrder) → Option (List OpenOrder)
get_alpaca_open_orders false answer = some []
get_alpaca_open_orders true (answered orders) = some orders
get_alpaca_open_orders true (refused status) = some []
get_alpaca_open_orders true odd_body = some []
get_alpaca_open_orders true (threw message) = none

said_open : Value → Bool
said_open (Value.bool b) = b
said_open _ = false

-- Whether the market counts as open; any doubt counts as closed.
unfoldable pub check_market_open_for_scheduled_cycle : Bool → Answer Value → Bool
unfolding said_open
check_market_open_for_scheduled_cycle false answer = true
check_market_open_for_scheduled_cycle true (answered body) =
    said_open (property (text "is_open") body)
check_market_open_for_scheduled_cycle true _ = false
