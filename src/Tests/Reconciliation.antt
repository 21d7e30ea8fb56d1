-- ===== src/Tests/Reconciliation.antt =====
-- Reconciliation at concrete inputs.
use quantpaca.Base.{◌≡◌, ◌↔◌, refl, true, [], ◌∷◌, some}
use quantpaca.Js.Number.{num}
use quantpaca.Js.Text.{Text, text, filled as is_filled}
use quantpaca.Js.Value.{Value}
use quantpaca.Js.Object.{lookup}
use quantpaca.Trading.Types.{buy}
use quantpaca.Risk.Portfolio.{AlpacaPosition}
use quantpaca.Reconciliation.{
  LocalTrade, BrokerOrder, order_status, nonzero, live_map, compute_expected_positions,
  build_position_reconciliation_report, matched, reconcile_broker_state,
}
use quantpaca.Reconciliation.Positions.{Agrees, report_matched_iff}
use quantpaca.Reconciliation.Orders.{partial_fill_never_matches}

abbrev partial : LocalTrade
partial = record {
  id = text "tr-1";
  broker_order_id = some (text "order-1");
  symbol = text "NVDA";
  qty = Value.number (num 10);
  side = buy;
  status = text "PartiallyFilled";
  filled_qty = some (Value.number (num 4));
}

abbrev order : BrokerOrder
order = record {
  id = text "order-1";
  symbol = text "NVDA";
  qty = text "10";
  side = buy;
  status = text "partially_filled";
}

abbrev held : AlpacaPosition
held = record { symbol = text "NVDA"; qty = text "4"; market_value = text "400" }

id_known : is_filled (text "order-1") ≡ true
unfolding is_filled text
id_known = refl

partial_fill_never_matches_example :
    reconcile_broker_state (partial ∷ []) (order ∷ [])
    ≡ order_status
        (text "tr-1")
        (text "order-1")
        (text "NVDA")
        (text "partiallyfilled")
        (text "partially_filled")
      ∷ []
partial_fill_never_matches_example =
    partial_fill_never_matches partial order refl refl refl id_known

report_matched_iff_example :
    let e = compute_expected_positions (partial ∷ []) [] in
    ((build_position_reconciliation_report (partial ∷ []) (held ∷ []) []).status ≡ matched) ↔ (
      (e.ledger_gaps ≡ [])
      × ((symbol : Text)
          → Agrees (lookup symbol (nonzero e.expected)) (lookup symbol (live_map (held ∷ []) []))))
report_matched_iff_example = report_matched_iff (partial ∷ []) (held ∷ []) []
