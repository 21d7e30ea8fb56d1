-- ===== src/Monitor/Marks.antt =====
-- The high-water marks of src/server/exitMonitor.ts.
use quantpaca.Base.{
  ◌≡◌, refl, ap, ◌⊎◌, inl, inr, true, List, [], ◌∷◌, ◌++◌, Option, none, some, arith, Bool-cases,
  not, ◌||◌,
}
use quantpaca.Js.Number.{Number, num, lt, le, is_finite}
use quantpaca.Js.Text.{Text, text, filled}
use quantpaca.Js.Value.{Value}
use quantpaca.NumericSafety.{ParsedFiniteNumber, ok, failed, numeric_value, parse_finite_number}
use quantpaca.Monitor.{
  OpenPosition, MonitorInput, ExitPlanRecord, PlanLookup, found, no_plan, lookup_threw,
  PlanValidation, valid_at, invalid, raise_mark, shares_of, validate_plan_inputs, evaluate_plan,
  evaluate_validated, evaluate_lookup, evaluate_position, evaluate_open_position_exits,
}

-- The call moves the mark of the position's plan from a finite one to the price, which is above it.
pub record Raises (input : MonitorInput) (pos : OpenPosition) (id symbol : Text) (mark : Number)
    : Type 0 where
  pub entry : ExitPlanRecord
  pub looked_up : input.lookup_plan pos.symbol ≡ found entry
  pub own_trade : entry.trade_id ≡ some id
  pub own_symbol : symbol ≡ pos.symbol
  pub at_price : validate_plan_inputs pos entry.exit_plan ≡ valid_at mark
  pub was_finite : is_finite (numeric_value entry.high_water_mark) ≡ true
  pub upwards : lt (numeric_value entry.high_water_mark) mark ≡ true

-- Each call of the ratchet is made for one of the positions.
abbrev pub AllRaise : MonitorInput → List OpenPosition → List (Text × Text × Number) → Type 0
AllRaise input positions [] = true ≡ true
AllRaise input positions ((id, symbol, mark) ∷ calls) =
    ((before : List OpenPosition) × (pos : OpenPosition) × (after : List OpenPosition) × (positions
        ≡ before ++ (pos ∷ after))
      × Raises input pos id symbol mark)
    × AllRaise input positions calls

-- One position calls the ratchet at most once.
RaisesOnce : MonitorInput → OpenPosition → List (Text × Text × Number) → Type 0
RaisesOnce input pos calls =
    (calls ≡ [])
    ⊎ ((id : Text) × (mark : Number) × (calls ≡ (id, pos.symbol, mark) ∷ [])
        × Raises input pos id pos.symbol mark)

raised :
    (id : Option Text) (symbol : Text) (price : Number) (high : ParsedFiniteNumber)
    → ((raise_mark id symbol price high).1 ≡ [])
      ⊎ ((trade : Text) × (mark : Number) × (id ≡ some trade)
          × (high ≡ ok mark)
          × (lt mark price ≡ true)
          × ((raise_mark id symbol price high).1 ≡ (trade, symbol, price) ∷ []))
unfolding raise_mark
raised id symbol price (failed field) = inl refl
raised none symbol price (ok mark) = inl (ground arith)
raised (some trade) symbol price (ok mark) = elim (Bool-cases (lt mark price)) [
  | inr low ↦ inl (ground (arith, low))
  | inl up ↦ elim (Bool-cases (filled trade)) [
    | inr blank ↦ inl (ground (arith, up, blank))
    | inl named ↦ inr (trade, mark, refl, refl, up, ground (arith, up, named))
  ]
]

parse_ok :
    (v : Value) (name : Text) (n : Number)
    → parse_finite_number v name ≡ ok n
    → (is_finite (numeric_value v) ≡ true) × (numeric_value v ≡ n)
unfolding parse_finite_number
parse_ok v name n h = ground arith

module _ (input : MonitorInput) (pos : OpenPosition) (qty : Number) where
  by_validation :
      (entry : ExitPlanRecord) (v : PlanValidation)
      → input.lookup_plan pos.symbol ≡ found entry
      → validate_plan_inputs pos entry.exit_plan ≡ v
      → RaisesOnce input pos (evaluate_validated input pos qty entry v).ratchets
  unfolding evaluate_validated evaluate_plan RaisesOnce
  by_validation entry (invalid field) there v = inl refl
  by_validation entry (valid_at price) there v =
      elim (raised entry.trade_id pos.symbol price
        (parse_finite_number entry.high_water_mark (text "highWaterMark"))) [
          | inl quiet ↦ inl quiet
          | inr (trade, mark, own, parsed, up, call) ↦
              let (known, value) =
                parse_ok entry.high_water_mark (text "highWaterMark") mark parsed in
              inr (
                trade,
                price,
                call,
                record {
                  entry = entry;
                  looked_up = there;
                  own_trade = own;
                  own_symbol = refl;
                  at_price = v;
                  was_finite = known;
                  upwards = rw value up;
                },
              )
        ]

  by_lookup :
      (l : PlanLookup)
      → input.lookup_plan pos.symbol ≡ l
      → RaisesOnce input pos (evaluate_lookup input pos qty l).ratchets
  unfolding evaluate_lookup RaisesOnce
  by_lookup lookup_threw there = inl refl
  by_lookup no_plan there = inl refl
  by_lookup (found entry) there =
      by_validation entry (validate_plan_inputs pos entry.exit_plan) there refl

position-RaisesOnce :
    (input : MonitorInput) (pos : OpenPosition)
    → RaisesOnce input pos (evaluate_position input pos).ratchets
unfolding evaluate_position RaisesOnce
position-RaisesOnce input pos =
    elim (Bool-cases (not (is_finite (shares_of pos)) || le (shares_of pos) (num 0))) [
      | inl empty ↦ rw empty (inl refl)
      | inr held ↦ rw held (by_lookup input pos (shares_of pos) (input.lookup_plan pos.symbol) refl)
    ]

AllRaise-cons :
    (input : MonitorInput) (pos : OpenPosition) (rest : List OpenPosition)
    (calls : List (Text × Text × Number))
    → AllRaise input rest calls
    → AllRaise input (pos ∷ rest) calls
AllRaise-cons input pos rest [] h = refl
AllRaise-cons input pos rest ((id, symbol, mark) ∷ calls) ((before, p, after, split, r), h) =
    ((pos ∷ before, p, after, ap (λ l. pos ∷ l) split, r), AllRaise-cons input pos rest calls h)

AllRaise-append :
    (input : MonitorInput) (pos : OpenPosition) (rest : List OpenPosition)
    (first calls : List (Text × Text × Number))
    → RaisesOnce input pos first
    → AllRaise input (pos ∷ rest) calls
    → AllRaise input (pos ∷ rest) (first ++ calls)
unfolding RaisesOnce
AllRaise-append input pos rest first calls (inl none_made) h = rw none_made h
AllRaise-append input pos rest first calls (inr (id, mark, one, r)) h =
    rw one (([], pos, rest, refl, r), h)

-- High-water marks only go up: each call moves the mark of the plan of one of the positions from a
-- finite one to that position's price, which is above it.
pub evaluate_open_position_exits-AllRaise :
    (input : MonitorInput) (positions : List OpenPosition)
    → AllRaise input positions (evaluate_open_position_exits input positions).ratchets
unfolding evaluate_open_position_exits
evaluate_open_position_exits-AllRaise input [] = refl
evaluate_open_position_exits-AllRaise input (pos ∷ rest) =
    AllRaise-append input pos rest _ _ (position-RaisesOnce input pos)
      (AllRaise-cons input pos rest _ (evaluate_open_position_exits-AllRaise input rest))
