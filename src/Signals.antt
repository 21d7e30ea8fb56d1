-- ===== src/Signals.antt =====
-- src/server/whipsawGate.ts and src/server/crossSourceConfirmation.ts: what a signal's decision and
-- confidence become in view of the whipsaw verdict and of the other sources.
use quantpaca.Base.{ℕ, Bool, true, false, not, ◌&&◌, ◌||◌, List, [], ◌∷◌, if◌then◌else◌, any, keep}
use quantpaca.Js.Number.{Number, num, le, max, min, is_finite}
use quantpaca.Js.Arith.{ratio, sub, mul, div}
use quantpaca.Js.Text.{Text, text, text_eq}
use quantpaca.Js.Value.{Value}
pub mod Gated
pub mod Bearish
pub mod Review

pub data WhipsawVerdict : Type 0 where
  whipsaw reversal unclear : WhipsawVerdict

pub data SignalDecision : Type 0 where
  buy sell hold nothing : SignalDecision

unfoldable pub normalize_whipsaw_verdict : Value → WhipsawVerdict
normalize_whipsaw_verdict (Value.string s) =
    if text_eq s (text "whipsaw")
    then whipsaw
    else if text_eq s (text "reversal")
    then reversal
    else unclear
normalize_whipsaw_verdict _ = unclear

unfoldable pub buy_confidence_multiplier : WhipsawVerdict → Number
buy_confidence_multiplier whipsaw = num 1
buy_confidence_multiplier unclear = ratio 75 100
buy_confidence_multiplier reversal = ratio 5 10

unfoldable pub clamp_confidence : Number → Number
clamp_confidence value = max (num 0) (min (num 100) value)

-- The note of a downgrade names the verdict, which is kept.
pub record WhipsawGateResult : Type 0 where
  pub decision : SignalDecision
  pub ai_confidence : Number
  pub whipsaw_verdict : WhipsawVerdict
  pub downgraded : Bool

gated : SignalDecision → Number → WhipsawVerdict → Bool → WhipsawGateResult
gated decision confidence verdict downgraded = record {
  decision = decision;
  ai_confidence = confidence;
  whipsaw_verdict = verdict;
  downgraded = downgraded;
}

gate_sell : WhipsawVerdict → Number → WhipsawGateResult
unfolding gated
gate_sell reversal confidence = gated sell confidence reversal false
gate_sell whipsaw confidence = gated hold confidence whipsaw true
gate_sell unclear confidence = gated hold confidence unclear true

unfoldable pub apply_whipsaw_gate : SignalDecision → Value → Number → WhipsawGateResult
unfolding gate_sell gated
apply_whipsaw_gate sell verdict confidence =
    gate_sell (normalize_whipsaw_verdict verdict) confidence
apply_whipsaw_gate buy verdict confidence =
    let read = normalize_whipsaw_verdict verdict in
    gated buy (clamp_confidence (mul confidence (buy_confidence_multiplier read))) read false
apply_whipsaw_gate hold verdict confidence =
    gated hold confidence (normalize_whipsaw_verdict verdict) false
apply_whipsaw_gate nothing verdict confidence =
    gated nothing confidence (normalize_whipsaw_verdict verdict) false

pub data Stance : Type 0 where
  bullish bearish neutral : Stance

abbrev pub cross_source_window_hours : ℕ
cross_source_window_hours = 72

unfoldable pub cross_source_boost_multiplier : Number
cross_source_boost_multiplier = ratio 12 10

pub record CrossSourceSignal : Type 0 where
  pub source : Text
  pub stance : Stance
  pub source_timestamp : Number

pub data CrossSourceResult : Type 0 where
  boost : Number → CrossSourceResult
  conflict unaffected : CrossSourceResult

-- Another source's signal of the last 72 hours.
unfoldable pub is_relevant : Text → Number → CrossSourceSignal → Bool
is_relevant current now signal =
    let age = div (sub now signal.source_timestamp) (num 3600000) in
    not (text_eq signal.source current)
    && (is_finite signal.source_timestamp
        && (le (num 0) age && le age (num cross_source_window_hours)))

abbrev pub is_stance : Stance → Stance → Bool
is_stance bullish bullish = true
is_stance bearish bearish = true
is_stance neutral neutral = true
is_stance _ _ = false

has_stance : Stance → List CrossSourceSignal → Bool
has_stance stance signals = any (λ s. is_stance s.stance stance) signals

unfoldable pub evaluate_cross_source :
    Text → Stance → List CrossSourceSignal → Number → CrossSourceResult
unfolding has_stance
evaluate_cross_source current neutral signals now = unaffected
evaluate_cross_source current bullish signals now =
    let relevant = keep (is_relevant current now) signals in
    if has_stance bearish relevant
    then conflict
    else if has_stance bullish relevant
    then boost cross_source_boost_multiplier
    else unaffected
evaluate_cross_source current bearish signals now =
    if has_stance bullish (keep (is_relevant current now) signals) then conflict else unaffected
