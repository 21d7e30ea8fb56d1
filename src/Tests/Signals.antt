-- ===== src/Tests/Signals.antt =====
-- The review of signals and the bearish mapping at concrete inputs.
use quantpaca.Base.{◌≡◌, ◌≢◌, ◌↔◌, refl, true, false, [], ◌∷◌, List, none, some, arith}
use quantpaca.Js.Number.{Number, num, lt, le, min, max, is_finite, abs}
use quantpaca.Js.Arith.{add, sub, mul, div, floor}
use quantpaca.Js.Text.{
  Text, text, text_eq, filled, includes, trim, to_lower, to_upper, join, has_word,
}
use quantpaca.Js.Value.{Value}
use quantpaca.Trading.Symbol.{validate_symbol, is_ticker}
use quantpaca.Exits.{iso_time}
use quantpaca.Signals.{
  sell, bearish, neutral, reversal, normalize_whipsaw_verdict, clamp_confidence,
}
use quantpaca.Signals.Bearish.{
  BearishInput, Restriction, thesis_invalidation, do_not_buy, evaluate_bearish_mapping,
  normalize_stance, end_of_term, thesis_invalidation_days, do_not_buy_days,
}
use quantpaca.Signals.Bearish.Mapped.{behind_gate, bearish_iff}
use quantpaca.Signals.Review.{
  RawSignal, ReviewOptions, accepted, rejected, duplicate, compute_duplicate_key, reviewed_id,
  symbol_of, ReviewedSignal, review_signal, review_status, is_well_formed, is_supported, max_age,
  age_hours, normalize_confidence, classify, normalize_thesis,
}
use quantpaca.Signals.Review.Step.{
  ReviewedRow, review_and_persist_signal, load_recent_duplicate_keys,
}
use quantpaca.Signals.Review.Step.Dedup.{review_all, accepted_once, accepted_again}

abbrev same : Text → Text
same t = t

abbrev epoch : Text → Number
epoch t = num 0

abbrev letter : RawSignal
letter = record {
  id = text "raw-1";
  source = text "ziptrader";
  source_id = text "email:1";
  source_timestamp = text "2026-07-01";
  symbol = text "NVDA";
  thesis = text "strong growth";
  normalized_thesis_hash = text "strong growth";
  url = none;
  ai_confidence = some (num 80);
  trust_tier = none;
  stance = none;
  cross_source = none;
}

abbrev copy : RawSignal
copy = record letter { id = text "raw-2"; thesis = text "growth goes on" }

abbrev other : RawSignal
other = record letter { id = text "raw-3"; source_id = text "email:2" }

abbrev at_noon : ReviewOptions
at_noon = record { now = num 3600000; max_age_hours = none }

abbrev first : ReviewedSignal × List ReviewedRow
first = review_and_persist_signal same epoch at_noon letter []

letter_accepted : first.0.status ≡ accepted
unfolding review_and_persist_signal review_signal review_status is_well_formed is_supported max_age
    age_hours normalize_confidence compute_duplicate_key load_recent_duplicate_keys validate_symbol
    is_ticker trim to_upper text text_eq filled includes join num lt le sub div is_finite min max
    clamp_confidence
letter_accepted = refl

same_key : compute_duplicate_key copy ≡ compute_duplicate_key letter
unfolding compute_duplicate_key symbol_of validate_symbol is_ticker trim to_upper text join
same_key = refl

other_id : text_eq (reviewed_id same letter) (reviewed_id same other) ≡ false
unfolding reviewed_id text text_eq
other_id = refl

accepted_once_example :
    (review_and_persist_signal same epoch at_noon copy
      (review_all same epoch ((at_noon, other) ∷ []) first.1)).0.status
    ≢ accepted
accepted_once_example =
    accepted_once same epoch at_noon letter [] letter_accepted ((at_noon, other) ∷ [])
      (other_id, tt) (omega arith) at_noon copy same_key

accepted_again_example :
    let once = first.1 in
    let twice = review_and_persist_signal same epoch at_noon letter once in
    (twice.0.status ≡ rejected duplicate)
    × ((review_and_persist_signal same epoch at_noon letter twice.1).0.status ≡ accepted)
accepted_again_example = accepted_again same epoch at_noon letter [] (omega arith) letter_accepted

abbrev short_thesis : BearishInput
short_thesis = record {
  symbol = text "NVDA";
  source_id = text "ziptrader";
  original_decision = sell;
  stance = Value.string (text "bearish");
  symbol_held = true;
  whipsaw_downgraded = false;
  now = num 0;
}

abbrev entry : Restriction
entry = record { symbol = text "NVDA"; source_id = text "ziptrader"; expires_at = num 2592000000 }

bearish_iff_example :
    let input = behind_gate short_thesis (Value.string (text "reversal")) (num 80) in
    ((evaluate_bearish_mapping input ≡ some (thesis_invalidation entry)) ↔ (
      (sell ≡ sell)
      × (normalize_stance (Value.string (text "bearish")) ≡ bearish)
      × (true ≡ true)
      × (normalize_whipsaw_verdict (Value.string (text "reversal")) ≡ reversal)
      × (end_of_term (num 0) thesis_invalidation_days ≡ some (num 2592000000))
      × (text "NVDA" ≡ text "NVDA")
      × (text "ziptrader" ≡ text "ziptrader")))
    × ((evaluate_bearish_mapping input ≡ some (do_not_buy entry)) ↔ (
        (sell ≡ sell)
        × (normalize_stance (Value.string (text "bearish")) ≡ bearish)
        × (true ≡ false)
        × (end_of_term (num 0) do_not_buy_days ≡ some (num 2592000000))
        × (text "NVDA" ≡ text "NVDA")
        × (text "ziptrader" ≡ text "ziptrader")))
bearish_iff_example = bearish_iff short_thesis (Value.string (text "reversal")) (num 80) entry

-- A bearish SELL of a held symbol whose verdict is a reversal, at the epoch: thirty days.
invalidated : evaluate_bearish_mapping short_thesis ≡ some (thesis_invalidation entry)
unfolding evaluate_bearish_mapping normalize_stance end_of_term iso_time text text_eq num add mul lt
    le abs floor is_finite
invalidated = refl

-- The stems `accelerat` and `accumulat` stand in no thesis as words of their own.
stem_missed : classify (text "Earnings accelerate") ≡ neutral
unfolding classify to_lower text has_word
stem_missed = refl

one_space : normalize_thesis (text " Buy --  NOW! ") ≡ text "buy now"
unfolding normalize_thesis to_lower text trim
one_space = refl
