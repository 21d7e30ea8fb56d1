-- ===== src/Tests/Startup.antt =====
-- The start-up reconciliation at concrete inputs.
use quantpaca.Base.{◌≡◌, ◌⊎◌, refl, ℕ, true, false, [], ◌∷◌, none, some, leb, if◌then◌else◌}
use quantpaca.Js.Text.{text}
use quantpaca.Trading.Types.{buy, sell, OrphanOrder}
use quantpaca.Startup.{
  Boot, AttemptResult, closed_gate, buy_gate_rejection_reason, attempt_with_retry, clear_orphans,
}
use quantpaca.Startup.Gate.{
  attempted, orphans_cleared, loaded, attempt_made, admin_cleared, OpenedBy, open-OpenedBy,
}
use quantpaca.Startup.Retries.{after_retries, Succeeds, GivesUp, retries_settle}

abbrev stray : OrphanOrder
stray = record {
  id = text "o-1";
  client_order_id = none;
  symbol = some (text "NVDA");
  qty = none;
  side = none;
  status = none;
}

abbrev failed_attempt : AttemptResult
failed_attempt = record {
  ok = false;
  polled_count = 0;
  updated_count = 0;
  orphans = [];
  audit_events = [];
}

abbrev found_stray : AttemptResult
found_stray = record {
  ok = true;
  polled_count = 2;
  updated_count = 1;
  orphans = stray ∷ [];
  audit_events = [];
}

abbrev fresh_boot : Boot
fresh_boot = record { gate = closed_gate; has_handle = false; pending = none; effects = [] }

open-OpenedBy_example :
    (buy_gate_rejection_reason buy (record { trading_ready = true; orphan_orders = [] }) ≡ none
      → OpenedBy (orphans_cleared ∷ attempted found_stray ∷ attempted failed_attempt ∷ []))
    × (buy_gate_rejection_reason sell (record { trading_ready = true; orphan_orders = [] }) ≡ none)
unfolding attempt_with_retry clear_orphans
open-OpenedBy_example = open-OpenedBy (
    admin_cleared (
      attempt_made found_stray 2 (attempt_made failed_attempt 1 (loaded {boot = fresh_boot} refl))))

-- The first two attempts fail.
abbrev third_time : ℕ → AttemptResult
third_time n = if leb n 2 then failed_attempt else found_stray

retries_settle_example :
    let last = after_retries third_time 11 fresh_boot in
    (last.pending ≡ none) × (Succeeds third_time last ⊎ GivesUp third_time fresh_boot last)
retries_settle_example = retries_settle third_time fresh_boot refl
