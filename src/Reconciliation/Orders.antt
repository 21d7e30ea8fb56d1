-- ===== src/Reconciliation/Orders.antt =====
-- How the statuses of local trades and broker orders are compared.
use quantpaca.Base.{◌≡◌, refl, true, [], ◌∷◌, some}
use quantpaca.Js.Text.{text, text_eq, text_eq_refl, to_lower, filled as is_filled}
use quantpaca.Js.Object.{lookup, store}
use quantpaca.Reconciliation.{
  LocalTrade, BrokerOrder, order_status, normalize_status, orders_by_id, reconcile_broker_state,
  compare_order,
}

-- A trade that is recorded as partially filled, alone against its order, is a mismatch where
-- the broker reports it as partially filled: the two spellings of the status never compare as equal.
pub partial_fill_never_matches :
    (trade : LocalTrade) (order : BrokerOrder)
    → trade.status ≡ text "PartiallyFilled"
    → order.status ≡ text "partially_filled"
    → trade.broker_order_id ≡ some order.id
    → is_filled order.id ≡ true
    → reconcile_broker_state (trade ∷ []) (order ∷ [])
      ≡ order_status trade.id order.id trade.symbol
          (text "partiallyfilled")
          (text "partially_filled")
        ∷ []
unfolding reconcile_broker_state compare_order normalize_status to_lower text text_eq lookup
    orders_by_id store
partial_fill_never_matches trade order h k i f = rw (i, f, h, k, text_eq_refl order.id) refl
