-- ===== src/Signals/Bearish.antt =====
-- src/server/bearishMapping.ts: what a bearish analysis means for a program that never sells short.
-- A held symbol loses its thesis, another one may not be bought for a time. The text of a reason is
-- fixed by the symbol, the source and the kind, and is left out.
use quantpaca.Base.{Bool, true, false, Option, none, some, if◌then◌else◌, ℕ}
use quantpaca.Js.Number.{Number, num}
use quantpaca.Js.Arith.{add, mul}
use quantpaca.Js.Text.{Text, text, text_eq}
use quantpaca.Js.Value.{Value}
use quantpaca.Exits.{iso_time}
use quantpaca.Signals.{SignalDecision, buy, sell, hold, nothing, Stance, bullish, bearish, neutral}
pub mod Mapped

unfoldable pub normalize_stance : Value → Stance
normalize_stance (Value.string s) =
    if text_eq s (text "bullish")
    then bullish
    else if text_eq s (text "bearish")
    then bearish
    else neutral
normalize_stance _ = neutral

abbrev pub do_not_buy_days : ℕ
do_not_buy_days = 30

abbrev pub thesis_invalidation_days : ℕ
thesis_invalidation_days = 30

-- A list entry: the symbol, the source and the end of its term.
pub record Restriction : Type 0 where
  pub symbol : Text
  pub source_id : Text
  pub expires_at : Number

pub data BearishMappingResult : Type 0 where
  thesis_invalidation do_not_buy : Restriction → BearishMappingResult
  contradiction unmapped : BearishMappingResult

pub record BearishInput : Type 0 where
  pub symbol : Text
  pub source_id : Text
  pub original_decision : SignalDecision
  pub stance : Value
  pub symbol_held : Bool
  pub whipsaw_downgraded : Bool
  pub now : Number

-- `new Date(now.getTime() + days * 24 * 60 * 60 * 1000).toISOString()`
unfoldable pub end_of_term : Number → ℕ → Option Number
end_of_term now days =
    iso_time (add now (mul (mul (mul (mul (num days) (num 24)) (num 60)) (num 60)) (num 1000)))

restriction : BearishInput → Number → Restriction
restriction input until = record {
  symbol = input.symbol;
  source_id = input.source_id;
  expires_at = until;
}

-- A bearish SELL, by whether the symbol is held and whether the whipsaw gate took the sell back.
bearish_sell : Bool → Bool → BearishInput → Option BearishMappingResult
unfolding restriction
bearish_sell true true input = some unmapped
bearish_sell true false input = elim (end_of_term input.now thesis_invalidation_days) [
  | none ↦ none
  | some until ↦ some (thesis_invalidation (restriction input until))
]
bearish_sell false downgraded input = elim (end_of_term input.now do_not_buy_days) [
  | none ↦ none
  | some until ↦ some (do_not_buy (restriction input until))
]

map_stance : SignalDecision → Stance → BearishInput → Option BearishMappingResult
unfolding bearish_sell
map_stance buy bearish input = some contradiction
map_stance sell bearish input = bearish_sell input.symbol_held input.whipsaw_downgraded input
map_stance _ _ input = some unmapped

-- `evaluateBearishMapping`; `none` where the date throws.
unfoldable pub evaluate_bearish_mapping : BearishInput → Option BearishMappingResult
unfolding map_stance normalize_stance
evaluate_bearish_mapping input =
    map_stance input.original_decision (normalize_stance input.stance) input
