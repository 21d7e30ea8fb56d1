-- ===== src/Monitor/Protection.antt =====
-- What src/server/exitMonitor.ts guarantees of each position.
use quantpaca.Base.{
  ◌≡◌, ◌≢◌, refl, sym, ap, ◌∙◌, ◌⊎◌, inl, inr, true, false, List, [], ◌∷◌, ◌++◌, Option, arith,
}
use mathlib.Core.List.{append_assoc}
use quantpaca.Js.Number.{Number, num, le, neg, is_finite}
use quantpaca.Js.Order.{le-not-lt}
use quantpaca.Js.Text.{Text, text, includes}
use quantpaca.NumericSafety.{parse_finite_number}
use quantpaca.Trading.Types.{buy}
use quantpaca.Exits.{ExitReason, ExitInput, no_exit, evaluate_exit_plan, stop_hit}
use quantpaca.Monitor.{
  OpenPosition, MonitorInput, ExitPlanRecord, lookup_threw, no_plan, found, InvalidField, valid_at,
  invalid, shares_of, legacy_exits_of, exits_of, permission_for, raise_mark, evaluate_plan,
  evaluate_validated, evaluate_lookup, validate_plan_inputs, evaluate_position,
  evaluate_open_position_exits,
}

-- The element stands in the list.
abbrev pub Holds {ℓ} : {A : Type ℓ} → A → List A → Type ℓ
Holds {A} a l = (front : List A) × (back : List A) × (l ≡ front ++ (a ∷ back))

Holds-append {ℓ} : {A : Type ℓ} (a : A) (l m : List A) → Holds a l → Holds a (l ++ m)
Holds-append a l m (front, back, e) =
    (front, back ++ m, ap (λ k. k ++ m) e ∙ append_assoc front (a ∷ back) m)

append-Holds {ℓ} : {A : Type ℓ} (a : A) (l m : List A) → Holds a m → Holds a (l ++ m)
append-Holds a l m (front, back, e) =
    (l ++ front, back, ap (λ k. l ++ k) e ∙ sym (append_assoc l front (a ∷ back)))

-- The position has whole shares to sell.
pub record HasShares (pos : OpenPosition) : Type 0 where
  pub countable : is_finite (shares_of pos) ≡ true
  pub at_least_one : le (shares_of pos) (num 0) ≡ false

-- A long position with a plan that can be read is at or below its stop price.
pub record IsStopped (input : MonitorInput) (pos : OpenPosition) : Type 0 where
  pub entry : ExitPlanRecord
  pub looked_up : input.lookup_plan pos.symbol ≡ found entry
  pub long : entry.side ≡ buy
  pub price : Number
  pub readable : validate_plan_inputs pos entry.exit_plan ≡ valid_at price
  pub reached : le price entry.exit_plan.initial_stop_loss_price ≡ true

-- There is no plan that can be used.
abbrev pub Unplanned : MonitorInput → OpenPosition → Type 0
Unplanned input pos =
    (input.lookup_plan pos.symbol ≡ lookup_threw)
    ⊎ (input.lookup_plan pos.symbol ≡ no_plan)
    ⊎ ((entry : ExitPlanRecord) × (field : InvalidField) × (input.lookup_plan pos.symbol
          ≡ found entry)
        × (validate_plan_inputs pos entry.exit_plan ≡ invalid field))

-- A position without a usable plan has lost the legacy percentage.
pub record IsLosing (input : MonitorInput) (pos : OpenPosition) : Type 0 where
  pub unplanned : Unplanned input pos
  pub known_loss : is_finite pos.unrealized_pl_percent ≡ true
  pub deep : le pos.unrealized_pl_percent (neg input.legacy_stop_loss_percent) ≡ true

exits_some :
    (symbol : Text) (qty : Number) (reason : ExitReason)
    → reason ≢ no_exit
    → exits_of symbol qty reason ≡ record { symbol = symbol; qty = qty; reason = reason } ∷ []
unfolding exits_of
exits_some symbol qty no_exit h = absurd (h refl)
exits_some symbol qty ExitReason.thesis_invalidation h = refl
exits_some symbol qty ExitReason.regime_change h = refl
exits_some symbol qty ExitReason.time_exit h = refl
exits_some symbol qty ExitReason.stop_loss h = refl
exits_some symbol qty ExitReason.take_profit h = refl
exits_some symbol qty ExitReason.trailing_stop h = refl

stop_closes :
    (input : ExitInput)
    → input.side ≡ buy
    → le input.current_price input.exit_plan.initial_stop_loss_price ≡ true
    → evaluate_exit_plan input ≢ no_exit
unfolding evaluate_exit_plan stop_hit
stop_closes input long reached h = ground (arith, long, reached, h)

stopped_plan :
    (input : MonitorInput) (pos : OpenPosition) (entry : ExitPlanRecord) (price qty : Number)
    (marked : Option Number × List (Text × Text × Number))
    → entry.side ≡ buy
    → le price entry.exit_plan.initial_stop_loss_price ≡ true
    → (reason : ExitReason) × ((evaluate_plan input pos qty entry price marked).plan_exits
        ≡ record { symbol = pos.symbol; qty = qty; reason = reason } ∷ [])
unfolding evaluate_plan
stopped_plan input pos entry price qty marked long reached =
    let asked : ExitInput = record {
      exit_plan = entry.exit_plan;
      side = entry.side;
      current_price = price;
      now = input.now;
      thesis_invalidated = includes input.thesis_invalidated_symbols pos.symbol;
      regime_permission =
          permission_for entry.exit_plan.regime_change_action input.regime_permission;
      high_water_mark = marked.0;
    } in
    (
      evaluate_exit_plan asked,
      exits_some pos.symbol qty (evaluate_exit_plan asked) (stop_closes asked long reached),
    )

position_stopped :
    (input : MonitorInput) (pos : OpenPosition)
    → HasShares pos
    → IsStopped input pos
    → (reason : ExitReason) × ((evaluate_position input pos).plan_exits
        ≡ record { symbol = pos.symbol; qty = shares_of pos; reason = reason } ∷ [])
unfolding evaluate_position evaluate_lookup evaluate_validated
position_stopped input pos shares h =
    rw (shares.countable, shares.at_least_one, h.looked_up, h.readable)
      (stopped_plan input pos h.entry h.price (shares_of pos)
        (raise_mark h.entry.trade_id pos.symbol h.price
          (parse_finite_number h.entry.high_water_mark (text "highWaterMark")))
        h.long h.reached)

legacy_needed :
    (pos : OpenPosition) (limit qty : Number)
    → is_finite pos.unrealized_pl_percent ≡ true
    → le pos.unrealized_pl_percent (neg limit) ≡ true
    → legacy_exits_of pos limit qty
      ≡ record {
        symbol = pos.symbol;
        qty = qty;
        unrealized_loss_percent = pos.unrealized_pl_percent;
      }
        ∷ []
unfolding legacy_exits_of
legacy_needed pos limit qty known deep =
    rw (known, le-not-lt pos.unrealized_pl_percent (neg limit) deep) refl

position_losing :
    (input : MonitorInput) (pos : OpenPosition)
    → HasShares pos
    → IsLosing input pos
    → (evaluate_position input pos).legacy_exits
      ≡ record {
        symbol = pos.symbol;
        qty = shares_of pos;
        unrealized_loss_percent = pos.unrealized_pl_percent;
      }
        ∷ []
unfolding evaluate_position evaluate_lookup evaluate_validated
position_losing input pos shares h =
    let needed =
      legacy_needed pos input.legacy_stop_loss_percent (shares_of pos) h.known_loss h.deep in
    rw (shares.countable, shares.at_least_one)
      (elim h.unplanned [
        | inl thrown ↦ rw thrown needed
        | inr (inl none_there) ↦ rw none_there needed
        | inr (inr (entry, field, there, bad)) ↦ rw (there, bad) needed
      ])

-- Whatever other positions there are: a long position at or below the stop of its plan is closed
-- with all its whole shares, and so is one without a usable plan that has lost the legacy
-- percentage.
pub evaluate_open_position_exits-Holds :
    (input : MonitorInput) (before : List OpenPosition) (pos : OpenPosition)
    (after : List OpenPosition)
    → HasShares pos
    → let result = evaluate_open_position_exits input (before ++ (pos ∷ after)) in
      (IsStopped input pos
        → (reason : ExitReason) × Holds
            (record { symbol = pos.symbol; qty = shares_of pos; reason = reason })
            result.plan_exits)
      × (IsLosing input pos
          → Holds
              (record {
                symbol = pos.symbol;
                qty = shares_of pos;
                unrealized_loss_percent = pos.unrealized_pl_percent;
              })
              result.legacy_exits)
unfolding evaluate_open_position_exits
evaluate_open_position_exits-Holds input [] pos after shares = (
  λ stopped.
      let (reason, only) = position_stopped input pos shares stopped in
      (reason, Holds-append _ _ _ ([], [], only)),
  λ losing. Holds-append _ _ _ ([], [], position_losing input pos shares losing),
)
evaluate_open_position_exits-Holds input (other ∷ before) pos after shares =
    let (stops, loses) = evaluate_open_position_exits-Holds input before pos after shares in
    (
      λ stopped. let (reason, kept) = stops stopped in (reason, append-Holds _ _ _ kept),
      λ losing. append-Holds _ _ _ (loses losing),
    )
