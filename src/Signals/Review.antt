-- ===== src/Signals/Review.antt =====
-- src/server/signalEngine.ts: a raw signal, its key against duplicates and its review. SHA-256 as
-- hexadecimal text, `Date.parse` and the clock are parameters.
use quantpaca.Base.{
  ℕ, ◌-◌, Bool, true, false, not, ◌&&◌, ◌||◌, List, [], ◌∷◌, ◌++◌, Option, none, some,
  if◌then◌else◌, is_some, or_else, ltb, ◌==◌, leb, length, take,
}
use quantpaca.Js.Number.{Number, num, infinite, lt, le, is_finite, number_or}
use quantpaca.Js.Arith.{sub, add, mul, div}
use quantpaca.Js.Text.{
  Text, text, text_eq, filled, includes, trim, to_lower, to_upper, contains, word_count, join,
  has_word,
}
use quantpaca.Trading.Symbol.{validate_symbol}
use quantpaca.Signals.{Stance, bullish, bearish, neutral, CrossSourceResult, clamp_confidence}
pub mod Step

pub data TrustTier : Type 0 where
  high medium low : TrustTier

pub record RawSignalInput : Type 0 where
  pub source : Text
  pub source_id : Text
  pub source_timestamp : Text
  pub symbol : Text
  pub thesis : Text
  pub trust_tier : Option TrustTier
  pub dedup_content : Option Text
  pub url : Option Text
  pub ai_confidence : Option Number
  pub stance : Option Stance
  pub cross_source : Option CrossSourceResult

pub record RawSignal : Type 0 where
  pub id : Text
  pub source : Text
  pub source_id : Text
  pub source_timestamp : Text
  pub symbol : Text
  pub thesis : Text
  pub normalized_thesis_hash : Text
  pub url : Option Text
  pub ai_confidence : Option Number
  pub trust_tier : Option TrustTier
  pub stance : Option Stance
  pub cross_source : Option CrossSourceResult

pub data RejectionReason : Type 0 where
  duplicate stale low_confidence unsupported malformed : RejectionReason

-- An accepted signal has no reason, a rejected one has one.
pub data ReviewStatus : Type 0 where
  accepted : ReviewStatus
  rejected : RejectionReason → ReviewStatus

pub data InvalidationCondition : Type 0 where
  below_support growth_decelerates thesis_invalidated : InvalidationCondition

pub record ReviewedSignal : Type 0 where
  pub id : Text
  pub raw_signal_id : Text
  pub symbol : Text
  pub source : Text
  pub source_timestamp : Text
  pub fresh : Bool
  pub confidence_score : Number
  pub classification : Stance
  pub thesis_summary : Text
  pub invalidation_conditions : InvalidationCondition
  pub evidence : List Text
  pub status : ReviewStatus
  pub trust_tier : Option TrustTier
  pub stance : Option Stance
  pub cross_source : Option CrossSourceResult

pub record ReviewOptions : Type 0 where
  pub now : Number
  pub max_age_hours : Option Number

-- `replace(/[^a-z0-9]+/g, " ")`: each run of other characters becomes one space.
is_plain : ℕ → Bool
is_plain c = (leb b'a' c && leb c b'z') || (leb b'0' c && leb c b'9')

collapse : Bool → Text → Text
unfolding is_plain
collapse gap [] = []
collapse gap (c ∷ s) =
    let plain = is_plain c in
    (if plain then c ∷ [] else if gap then [] else text " ") ++ collapse (not plain) s

unfoldable pub normalize_thesis : Text → Text
unfolding collapse
normalize_thesis thesis = trim (collapse false (to_lower thesis))

abbrev bearish_words : List Text
bearish_words =
    text "sell"
    ∷ text "bearish"
    ∷ text "breakdown"
    ∷ text "reversal"
    ∷ text "weak"
    ∷ text "risk"
    ∷ text "short"
    ∷ []

abbrev bullish_words : List Text
bullish_words =
    text "buy"
    ∷ text "bullish"
    ∷ text "growth"
    ∷ text "accelerat"
    ∷ text "strong"
    ∷ text "accumulat"
    ∷ text "breakout"
    ∷ []

unfoldable pub classify : Text → Stance
classify thesis =
    let normalized = to_lower thesis in
    if has_word bearish_words normalized
    then bearish
    else if has_word bullish_words normalized
    then bullish
    else neutral

unfoldable pub build_invalidation_conditions : Text → InvalidationCondition
build_invalidation_conditions thesis =
    let lower = to_lower thesis in
    if contains lower (text "support")
    then below_support
    else if contains lower (text "growth")
    then growth_decelerates
    else thesis_invalidated

unfoldable pub summarize : Text → Text
summarize thesis = if ltb 240 (length thesis) then take 237 thesis ++ text "..." else thesis

finite_confidence : Option Number → Bool
finite_confidence none = false
finite_confidence (some c) = is_finite c

-- The confidence that came with the signal, or one by the length of its thesis.
score_of : Option Number → Text → Number
score_of none thesis = clamp_confidence (add (num 40) (mul (num (word_count thesis)) (num 3)))
score_of (some c) thesis =
    if is_finite c
    then clamp_confidence c
    else clamp_confidence (add (num 40) (mul (num (word_count thesis)) (num 3)))

unfoldable pub normalize_confidence : RawSignal → Number
unfolding score_of
normalize_confidence signal = score_of signal.ai_confidence signal.thesis

-- The confidence of the source gemini has to be a finite number from 0 to 100.
in_range : Option Number → Bool
in_range none = false
in_range (some c) = is_finite c && not (lt c (num 0) || lt (num 100) c)

unfoldable pub is_supported : RawSignal → Bool
unfolding in_range
is_supported raw = not (text_eq raw.source (text "gemini")) || in_range raw.ai_confidence

unfoldable pub is_well_formed : RawSignal → Bool
is_well_formed raw =
    (validate_symbol raw.symbol).valid && (filled raw.source_id && filled raw.thesis)

evidence_of : Option Text → List Text
evidence_of none = []
evidence_of (some url) = if filled url then url ∷ [] else []

unfoldable pub symbol_of : RawSignal → Text
symbol_of raw = or_else (validate_symbol raw.symbol).normalized raw.symbol

unfoldable pub compute_duplicate_key : RawSignal → Text
compute_duplicate_key raw =
    join (text "|") (raw.source ∷ raw.source_id ∷ symbol_of raw ∷ raw.normalized_thesis_hash ∷ [])

unfoldable pub reviewed_id : (Text → Text) → RawSignal → Text
reviewed_id hash raw = text "rs-" ++ take 12 (hash raw.id)

module _ (hash : Text → Text) (parse_date : Text → Number) where
  unfoldable pub create_raw_signal : RawSignalInput → RawSignal
  create_raw_signal input =
      let thesis = trim input.thesis in
      record {
        id =
            text "raw-"
            ++ take 12 (
                hash (
                  join (text "|") (
                    input.source ∷ input.source_id ∷ input.symbol ∷ input.source_timestamp ∷ thesis
                    ∷ [])));
        source = input.source;
        source_id = trim input.source_id;
        source_timestamp = input.source_timestamp;
        symbol = to_upper (trim input.symbol);
        thesis = thesis;
        normalized_thesis_hash =
            hash (normalize_thesis (trim (or_else input.dedup_content input.thesis)));
        url = input.url;
        ai_confidence = input.ai_confidence;
        trust_tier = input.trust_tier;
        stance = input.stance;
        cross_source = input.cross_source;
      }

  unfoldable pub max_age : ReviewOptions → Number
  max_age options = elim options.max_age_hours [ none ↦ num 72 | some h ↦ number_or h (num 72) ]

  unfoldable pub age_hours : ReviewOptions → RawSignal → Number
  age_hours options raw =
      let source_time = parse_date raw.source_timestamp in
      if is_finite source_time
      then div (sub options.now source_time) (num 3600000)
      else infinite false

  -- The reviewed signal, whatever its status is.
  base_review : ReviewOptions → RawSignal → ReviewStatus → ReviewedSignal
  unfolding reviewed_id evidence_of
  base_review options raw status = record {
    id = reviewed_id hash raw;
    raw_signal_id = raw.id;
    symbol = symbol_of raw;
    source = raw.source;
    source_timestamp = raw.source_timestamp;
    fresh = le (age_hours options raw) (max_age options);
    confidence_score = normalize_confidence raw;
    classification = classify raw.thesis;
    thesis_summary = summarize raw.thesis;
    invalidation_conditions = build_invalidation_conditions raw.thesis;
    evidence = evidence_of raw.url;
    status = status;
    trust_tier = raw.trust_tier;
    stance = raw.stance;
    cross_source = raw.cross_source;
  }

  -- The first test that fails names the reason; `seen` are the keys of earlier signals.
  unfoldable pub review_status : ReviewOptions → List Text → RawSignal → ReviewStatus
  review_status options seen raw =
      if not (is_well_formed raw)
      then rejected malformed
      else if not (is_supported raw)
      then rejected unsupported
      else if lt (max_age options) (age_hours options raw)
      then rejected stale
      else if includes seen (compute_duplicate_key raw)
      then rejected duplicate
      else if lt (normalize_confidence raw) (num 35)
      then rejected low_confidence
      else accepted

  is_accepted : ReviewStatus → Bool
  is_accepted accepted = true
  is_accepted (rejected _) = false

  -- `reviewSignal` with the seen keys after it, to which an accepted signal adds its own.
  unfoldable pub review_signal : ReviewOptions → List Text → RawSignal → ReviewedSignal × List Text
  unfolding base_review is_accepted
  review_signal options seen raw =
      let status = review_status options seen raw in
      (
        base_review options raw status,
        (if is_accepted status then compute_duplicate_key raw ∷ seen else seen),
      )

  -- `reviewSignals`: the batch shares one set of seen keys.
  unfoldable pub review_signals : ReviewOptions → List Text → List RawSignal → List ReviewedSignal
  review_signals options seen [] = []
  review_signals options seen (raw ∷ raws) =
      let (reviewed, after) = review_signal options seen raw in
      reviewed ∷ review_signals options after raws
