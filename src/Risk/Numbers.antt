-- ===== src/Risk/Numbers.antt =====
-- What the parsing loop of the review leaves: every number that it needs is finite, and each entry
-- of the map is the number that the input stands for.
use quantpaca.Base.{
  ◌≡◌, ◌≢◌, if_same, refl, sym, inl, inr, true, false, ◌||◌, List, [], ◌∷◌, Option, none, some,
  if◌then◌else◌, arith, every, ◌==◌, ◌∙◌, ap, Bool-cases,
}
use mathlib.Core.List.{Memᴰ}
use quantpaca.Js.Number.{Number, is_finite}
use quantpaca.Js.Value.{Value}
use quantpaca.NumericSafety.{parse_finite_number, numeric_value}
use quantpaca.Trading.Types.{
  Side, RiskField, RiskDecision, rejected, not_finite, intent_qty, intent_notional,
  intent_estimated_price, portfolio_buying_power, metrics_daily_loss, metrics_daily_trade_count,
  metrics_open_position_count, metrics_account_equity, metrics_day_trade_count,
  limits_max_daily_loss, limits_max_daily_trade_count, limits_max_open_positions,
  limits_min_buying_power,
}
use quantpaca.Risk.Gates.{RiskInput}
use quantpaca.Risk.Fields.{
  Parsed, ParseOutcome, all_parsed, stopped_at, parse_fields, numeric_fields, is_optional_for,
  field_index, set_parsed,
}
use quantpaca.Risk.Engine.{review_risk, review_outcome, review_parsed, decide_with}

-- The input of a field, and the number that it stands for.
abbrev pub value_of : RiskInput → RiskField → Value
value_of input intent_qty = input.intent.qty
value_of input intent_notional = input.intent.notional
value_of input intent_estimated_price = input.intent.estimated_price
value_of input portfolio_buying_power = input.portfolio.buying_power
value_of input metrics_daily_loss = input.metrics.daily_loss
value_of input metrics_daily_trade_count = input.metrics.daily_trade_count
value_of input metrics_open_position_count = input.metrics.open_position_count
value_of input metrics_account_equity = input.metrics.account_equity
value_of input metrics_day_trade_count = input.metrics.day_trade_count
value_of input limits_max_daily_loss = input.limits.max_daily_loss
value_of input limits_max_daily_trade_count = input.limits.max_daily_trade_count
value_of input limits_max_open_positions = input.limits.max_open_positions
value_of input limits_min_buying_power = input.limits.min_buying_power

abbrev pub amount : RiskInput → RiskField → Number
amount input f = numeric_value (value_of input f)

abbrev pub finite_only : Number → Option Number
finite_only n = if is_finite n then some n else none

-- What the loop makes of one field, over the entry that was there.
abbrev assigned : RiskField → List (Value × RiskField) → Option Number → Option Number
assigned f [] o = o
assigned f ((v, g) ∷ l) o =
    let next =
      if field_index f == field_index g
      then (if is_finite (numeric_value v) then some (numeric_value v) else o)
      else o in
    assigned f l next

got : ParseOutcome → Parsed → Parsed
got (all_parsed p) q = p
got (stopped_at f) q = q

stopped-ne-all_parsed : (g : RiskField) (p : Parsed) → stopped_at g ≢ all_parsed p
stopped-ne-all_parsed g p h = cc

parse_fields-assigned :
    (side : Side) (l : List (Value × RiskField)) (acc p : Parsed) (f : RiskField)
    → parse_fields side l acc ≡ all_parsed p
    → p f ≡ assigned f l (acc f)
unfolding parse_fields parse_finite_number got
parse_fields-assigned side [] acc p f h = ap (λ o. got o acc f) (sym h)
parse_fields-assigned side ((v, g) ∷ l) acc p f h =
    elim (Bool-cases (is_finite (numeric_value v))) [
      | inl known ↦
          rw known
            (parse_fields-assigned side l (set_parsed g (numeric_value v) acc) p f (rw known at h))
      | inr unknown ↦ elim (Bool-cases (is_optional_for side g)) [
        | inl optional ↦
            rw (unknown, if_same (field_index f == field_index g) (acc f))
              (parse_fields-assigned side l acc p f (rw (unknown, optional) at h))
        | inr needed ↦ absurd (stopped-ne-all_parsed g p (rw (unknown, needed) at h))
      ]
    ]

-- The loop passes when every needed field is finite, and stops at one that is not otherwise.
abbrev Ends : Side → List (Value × RiskField) → ParseOutcome → Type 0
Ends side l (all_parsed p) =
    every (λ e. is_finite (numeric_value e.0) || is_optional_for side e.1) l ≡ true
Ends side l (stopped_at f) =
    (is_optional_for side f ≡ false)
    × (v : Value) × Memᴰ (v, f) l
    × (is_finite (numeric_value v) ≡ false)

Ends-cons :
    (side : Side) (e : Value × RiskField) (l : List (Value × RiskField)) (o : ParseOutcome)
    → (is_finite (numeric_value e.0) || is_optional_for side e.1) ≡ true
    → Ends side l o
    → Ends side (e ∷ l) o
Ends-cons side e l (all_parsed p) h k = rw (h, k)
Ends-cons side e l (stopped_at f) h (needed, v, m, bad) = (needed, v, Memᴰ.tail m, bad)

parse_fields-Ends :
    (side : Side) (l : List (Value × RiskField)) (acc : Parsed)
    → Ends side l (parse_fields side l acc)
unfolding parse_fields parse_finite_number
parse_fields-Ends side [] acc = refl
parse_fields-Ends side ((v, g) ∷ l) acc = elim (Bool-cases (is_finite (numeric_value v))) [
  | inl known ↦ rw known (
      Ends-cons side (v, g) l _ (rw known)
        (parse_fields-Ends side l (set_parsed g (numeric_value v) acc)))
  | inr unknown ↦ elim (Bool-cases (is_optional_for side g)) [
    | inl optional ↦
        rw (unknown, optional)
          (Ends-cons side (v, g) l _ (rw (unknown, optional)) (parse_fields-Ends side l acc))
    | inr needed ↦ rw (unknown, needed) (needed, v, Memᴰ.head refl, unknown)
  ]
]

-- What a full map holds.
pub record Reads (input : RiskInput) (p : Parsed) : Type 0 where
  pub holds : (f : RiskField) → p f ≡ finite_only (amount input f)
  pub needed :
      (f : RiskField)
      → is_optional_for input.intent.side f ≡ false
      → is_finite (amount input f) ≡ true

assigned_value :
    (input : RiskInput) (f : RiskField)
    → assigned f (numeric_fields input) none ≡ finite_only (amount input f)
unfolding numeric_fields
assigned_value input intent_qty = refl
assigned_value input _ = refl

needed_of_every :
    (input : RiskInput) (f : RiskField)
    → every
        (λ e. is_finite (numeric_value e.0) || is_optional_for input.intent.side e.1)
        (numeric_fields input)
      ≡ true
    → is_optional_for input.intent.side f ≡ false
    → is_finite (amount input f) ≡ true
unfolding numeric_fields
needed_of_every input intent_qty h k = ground arith
needed_of_every input _ h k = ground arith

-- The review rejects at a field that is needed and not finite, or decides by a full map.
pub data Reviewed (input : RiskInput) : RiskDecision → Type 0 where
  refused :
      (f : RiskField)
      → is_optional_for input.intent.side f ≡ false
      → is_finite (amount input f) ≡ false
      → Reviewed input (decide_with rejected (not_finite f))
  decided : (p : Parsed) → Reads input p → Reviewed input (review_parsed input p)

abbrev AllEntries : RiskInput → List (Value × RiskField) → Type 0
AllEntries input [] = Unit
AllEntries input ((v, f) ∷ l) = (v ≡ value_of input f) × AllEntries input l

numeric_fields-AllEntries : (input : RiskInput) → AllEntries input (numeric_fields input)
unfolding numeric_fields
numeric_fields-AllEntries input = (
  refl,
  (
    refl,
    (refl, (refl, (refl, (refl, (refl, (refl, (refl, (refl, (refl, (refl, (refl, tt))))))))))),
  ),
)

entry_value :
    (input : RiskInput) (e : Value × RiskField) (l : List (Value × RiskField))
    → AllEntries input l
    → Memᴰ e l
    → e.0 ≡ value_of input e.1
entry_value input e [] h m = elim m [ ]
entry_value input e (x ∷ l) h (Memᴰ.head p) = rw p h.0
entry_value input e (x ∷ l) h (Memᴰ.tail m) = entry_value input e l h.1 m

Reviewed-by :
    (input : RiskInput) (o : ParseOutcome)
    → parse_fields input.intent.side (numeric_fields input) (λ _. none) ≡ o
    → Ends input.intent.side (numeric_fields input) o
    → Reviewed input (review_outcome input o)
unfolding review_outcome
Reviewed-by input (stopped_at f) e (needed, v, m, bad) =
    refused f needed (rw (sym (entry_value input (v, f) _ (numeric_fields-AllEntries input) m)) bad)
Reviewed-by input (all_parsed p) e h = decided p (record {
  holds = λ f.
      parse_fields-assigned input.intent.side (numeric_fields input) (λ _. none) p f e
      ∙ assigned_value input f;
  needed = λ f k. needed_of_every input f h k;
})

pub review_risk-Reviewed : (input : RiskInput) → Reviewed input (review_risk input)
unfolding review_risk
review_risk-Reviewed input =
    Reviewed-by input _ refl
      (parse_fields-Ends input.intent.side (numeric_fields input) (λ _. none))
