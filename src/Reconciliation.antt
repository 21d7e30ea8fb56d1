-- ===== src/Reconciliation.antt =====
-- src/server/reconciliationEngine.ts: the ledger against the broker's orders and positions.
use quantpaca.Base.{
  Bool, true, false, not, ◌&&◌, ◌||◌, List, [], ◌∷◌, ◌++◌, Option, none, some, if◌then◌else◌,
}
use quantpaca.Js.Number.{Number, num, lt, le, eq, max, abs, neg, number_or}
use quantpaca.Js.Arith.{ratio, add, sub, mul}
use quantpaca.Js.Text.{Text, text, text_eq, to_lower, filled as is_filled}
use quantpaca.Js.Value.{Value}
use quantpaca.Js.Object.{lookup, store, keys, has_key}
use quantpaca.NumericSafety.{ParsedFiniteNumber, ok, failed, parse_finite_number}
use quantpaca.Trading.Types.{Side, buy, sell}
use quantpaca.Risk.Portfolio.{AlpacaPosition}
pub mod Orders
pub mod Ledger
pub mod Positions

pub record LocalTrade : Type 0 where
  pub id : Text
  pub broker_order_id : Option Text
  pub symbol : Text
  pub qty : Value
  pub side : Side
  pub status : Text
  pub filled_qty : Option Value

pub record BrokerOrder : Type 0 where
  pub id : Text
  pub symbol : Text
  pub qty : Text
  pub side : Side
  pub status : Text

-- The entries of a report's `mismatches`.
pub data Mismatch : Type 0 where
  missing_broker_order : Text → Option Text → Text → Mismatch
  order_status : Text → Text → Text → Text → Text → Mismatch
  ledger_gap : Text → Text → Text → Mismatch
  unexpected_position : Text → Number → Mismatch
  missing_position : Text → Number → Mismatch
  quantity_drift : Text → Number → Number → Number → Mismatch

unfoldable pub is_broker_submitted_state : Text → Bool
is_broker_submitted_state s =
    text_eq s (text "BrokerSubmitted")
    || (text_eq s (text "Accepted")
        || (text_eq s (text "PartiallyFilled") || text_eq s (text "Filled")))

normalize_lower : Text → Text
normalize_lower lower =
    if text_eq lower (text "filled")
    then text "filled"
    else if text_eq lower (text "accepted")
        || (text_eq lower (text "new") || text_eq lower (text "pending_new"))
    then text "accepted"
    else if text_eq lower (text "partially_filled")
    then text "partially_filled"
    else if text_eq lower (text "rejected")
    then text "rejected"
    else if text_eq lower (text "brokerfailed")
    then text "failed"
    else lower

unfoldable pub normalize_status : Text → Text
unfolding normalize_lower
normalize_status s = normalize_lower (to_lower s)

-- `new Map` over the orders: the last one of an id counts.
unfoldable pub orders_by_id :
    List BrokerOrder → List (Text × BrokerOrder) → List (Text × BrokerOrder)
orders_by_id [] l = l
orders_by_id (o ∷ os) l = orders_by_id os (store o.id o l)

unfoldable pub compare_order : LocalTrade → Option BrokerOrder → Text → List Mismatch
compare_order trade none id = missing_broker_order trade.id (some id) trade.symbol ∷ []
compare_order trade (some order) id =
    let here = normalize_status trade.status in
    let there = normalize_status order.status in
    if text_eq here there then [] else order_status trade.id order.id trade.symbol here there ∷ []

-- An empty id is falsy, as a missing one is.
unfoldable pub known_id : Option Text → Option Text
known_id none = none
known_id (some id) = if is_filled id then some id else none

unfoldable pub trade_mismatches :
    List (Text × BrokerOrder) → LocalTrade → Option Text → List Mismatch
unfolding compare_order
trade_mismatches orders trade none =
    if is_broker_submitted_state trade.status
    then missing_broker_order trade.id none trade.symbol ∷ []
    else []
trade_mismatches orders trade (some id) = compare_order trade (lookup id orders) id

unfoldable pub all_mismatches : List (Text × BrokerOrder) → List LocalTrade → List Mismatch
unfolding trade_mismatches known_id
all_mismatches orders [] = []
all_mismatches orders (t ∷ ts) =
    trade_mismatches orders t (known_id t.broker_order_id) ++ all_mismatches orders ts

unfoldable pub reconcile_broker_state : List LocalTrade → List BrokerOrder → List Mismatch
unfolding all_mismatches
reconcile_broker_state trades orders = all_mismatches (orders_by_id orders []) trades

-- `BROKER_SUCCESS_TRADE_STATUSES.has(status)`
unfoldable pub counts_as_position : Text → Bool
counts_as_position s =
    text_eq s (text "Accepted") || (text_eq s (text "PartiallyFilled") || text_eq s (text "Filled"))

pub record ExpectedPositions : Type 0 where
  pub expected : List (Text × Number)
  pub ledger_gaps : List Mismatch

-- `(expected[symbol] || 0) + delta`
unfoldable pub add_to : Text → Number → List (Text × Number) → List (Text × Number)
add_to symbol delta l = elim (lookup symbol l) [
  | none ↦ store symbol (add (num 0) delta) l
  | some n ↦ store symbol (add (number_or n (num 0)) delta) l
]

-- The quantity that a trade is counted with, and the field it stands in.
unfoldable pub counted_quantity : LocalTrade → ParsedFiniteNumber
counted_quantity trade = elim trade.filled_qty [
  | none ↦ parse_finite_number trade.qty (text "qty")
  | some n ↦ parse_finite_number n (text "filledQty")
]

counted_field : Option Value → Text
counted_field none = text "qty"
counted_field (some n) = text "filledQty"

unfoldable pub signed : Side → Number → Number
signed buy n = n
signed sell n = neg n

unfoldable pub book : LocalTrade → ParsedFiniteNumber → ExpectedPositions → ExpectedPositions
unfolding counted_field signed
book trade (failed reason) e = record e {
  ledger_gaps =
      e.ledger_gaps ++ (ledger_gap trade.id trade.symbol (counted_field trade.filled_qty) ∷ []);
}
book trade (ok n) e = record e { expected = add_to trade.symbol (signed trade.side n) e.expected }

-- One round of the loop over the trades.
unfoldable pub book_trade : LocalTrade → ExpectedPositions → ExpectedPositions
unfolding book
book_trade trade e =
    if counts_as_position trade.status then book trade (counted_quantity trade) e else e

unfoldable pub book_trades : List LocalTrade → ExpectedPositions → ExpectedPositions
unfolding book_trade
book_trades [] e = e
book_trades (t ∷ ts) e = book_trades ts (book_trade t e)

baseline_added : Text → ParsedFiniteNumber → List (Text × Number) → List (Text × Number)
baseline_added symbol (failed reason) l = l
baseline_added symbol (ok n) l = add_to symbol n l

unfoldable pub add_baselines : List (Text × Value) → List (Text × Number) → List (Text × Number)
unfolding baseline_added
add_baselines [] l = l
add_baselines ((s, v) ∷ bs) l =
    add_baselines bs (baseline_added s (parse_finite_number v (text "acknowledgedBaselineQty")) l)

-- The two loops at the end: a negative sum becomes 0, and a sum of 0 is left out.
unfoldable pub floored : List (Text × Number) → List (Text × Number)
floored [] = []
floored ((s, n) ∷ l) =
    let rest = floored l in
    let m = if lt n (num 0) then num 0 else n in if eq m (num 0) then rest else (s, m) ∷ rest

unfoldable pub compute_expected_positions :
    List LocalTrade → List (Text × Value) → ExpectedPositions
unfolding book_trades add_baselines floored
compute_expected_positions trades baselines =
    let booked = book_trades trades (record { expected = []; ledger_gaps = [] }) in
    record booked { expected = floored (add_baselines baselines booked.expected) }

live_added : Text → ParsedFiniteNumber → List (Text × Number) → List (Text × Number)
live_added symbol (failed reason) l = l
live_added symbol (ok n) l = store symbol n l

-- The broker's positions whose quantity can be read.
unfoldable pub live_map : List AlpacaPosition → List (Text × Number) → List (Text × Number)
unfolding live_added
live_map [] l = l
live_map (p ∷ ps) l =
    live_map ps
      (live_added p.symbol (parse_finite_number (Value.string p.qty) (text "position.qty")) l)

unfoldable pub nonzero : List (Text × Number) → List (Text × Number)
nonzero [] = []
nonzero ((s, n) ∷ l) = let rest = nonzero l in if eq n (num 0) then rest else (s, n) ∷ rest

unfoldable pub tolerance_of : Number → Number
tolerance_of expected = max (num 1) (mul (ratio 2 100) (abs expected))

unfoldable pub is_drift : Number → Number → Bool
is_drift expected actual =
    lt (add (tolerance_of expected) (ratio 1 1000000000)) (abs (sub expected actual))

unfoldable pub compare_symbol : Text → Option Number → Option Number → List Mismatch
compare_symbol s none none = []
compare_symbol s none (some actual) = unexpected_position s actual ∷ []
compare_symbol s (some expected) none = missing_position s expected ∷ []
compare_symbol s (some expected) (some actual) =
    if is_drift expected actual
    then quantity_drift s expected actual (tolerance_of expected) ∷ []
    else []

-- `new Set` of the keys: each counts once, at its first place.
unfoldable pub distinct_onto : List Text → List Text → List Text
distinct_onto [] seen = seen
distinct_onto (k ∷ ks) seen =
    if has_key k seen then distinct_onto ks seen else distinct_onto ks (seen ++ (k ∷ []))

unfoldable pub compare_symbols :
    List Text → List (Text × Number) → List (Text × Number) → List Mismatch
unfolding compare_symbol
compare_symbols [] expected live = []
compare_symbols (s ∷ ss) expected live =
    compare_symbol s (lookup s expected) (lookup s live) ++ compare_symbols ss expected live

unfoldable pub compare_positions : List (Text × Number) → List AlpacaPosition → List Mismatch
compare_positions expected positions =
    let wanted = nonzero expected in
    let live = live_map positions [] in
    compare_symbols (distinct_onto (keys wanted ++ keys live) []) wanted live

pub data ReportStatus : Type 0 where
  matched mismatch : ReportStatus

unfoldable pub status_of : List Mismatch → ReportStatus
status_of [] = matched
status_of (m ∷ ms) = mismatch

pub record ReconciliationReport : Type 0 where
  pub status : ReportStatus
  pub mismatches : List Mismatch

unfoldable pub build_position_reconciliation_report :
    List LocalTrade → List AlpacaPosition → List (Text × Value) → ReconciliationReport
unfolding status_of
build_position_reconciliation_report trades positions baselines =
    let e = compute_expected_positions trades baselines in
    let all = e.ledger_gaps ++ compare_positions e.expected positions in
    record { status = status_of all; mismatches = all }
