-- ===== src/Signals/Bearish/Mapped.antt =====
-- What a bearish analysis leads to, behind the whipsaw gate.
use quantpaca.Base.{◌≡◌, ◌↔◌, refl, Bool, true, false, some, arith}
use quantpaca.Js.Number.{Number}
use quantpaca.Js.Value.{Value}
use quantpaca.Signals.{
  SignalDecision, buy, sell, hold, nothing, Stance, bullish, bearish, neutral, WhipsawVerdict,
  whipsaw, reversal, unclear, normalize_whipsaw_verdict, apply_whipsaw_gate, gate_sell, gated,
}
use quantpaca.Signals.Bearish.{
  BearishInput, Restriction, thesis_invalidation, do_not_buy, evaluate_bearish_mapping,
  normalize_stance, end_of_term, thesis_invalidation_days, do_not_buy_days, map_stance,
  bearish_sell, restriction,
}

downgraded_sell :
    (verdict : WhipsawVerdict) (confidence : Number)
    → ((gate_sell verdict confidence).downgraded ≡ false) ↔ (verdict ≡ reversal)
unfolding gate_sell gated
downgraded_sell reversal confidence = (λ h. refl, λ h. refl)
downgraded_sell whipsaw confidence = (λ h. cc, λ h. cc)
downgraded_sell unclear confidence = (λ h. cc, λ h. cc)

-- The input of the mapping for a signal that went through the gate.
abbrev pub behind_gate : BearishInput → Value → Number → BearishInput
behind_gate input verdict confidence = record input {
  whipsaw_downgraded = (apply_whipsaw_gate input.original_decision verdict confidence).downgraded;
}

held_sell :
    (held downgraded : Bool) (input : BearishInput) (entry : Restriction)
    → (bearish_sell held downgraded input ≡ some (thesis_invalidation entry)) ↔ (
        (held ≡ true)
        × (downgraded ≡ false)
        × (end_of_term input.now thesis_invalidation_days ≡ some entry.expires_at)
        × (entry.symbol ≡ input.symbol)
        × (entry.source_id ≡ input.source_id))
unfolding bearish_sell restriction
held_sell true true input entry = (λ h. cc, λ h. cc)
held_sell true false input entry = (λ h. ground arith, λ h. ground arith)
held_sell false downgraded input entry = (λ h. ground arith, λ h. ground arith)

unheld_sell :
    (held downgraded : Bool) (input : BearishInput) (entry : Restriction)
    → (bearish_sell held downgraded input ≡ some (do_not_buy entry)) ↔ (
        (held ≡ false)
        × (end_of_term input.now do_not_buy_days ≡ some entry.expires_at)
        × (entry.symbol ≡ input.symbol)
        × (entry.source_id ≡ input.source_id))
unfolding bearish_sell restriction
unheld_sell true true input entry = (λ h. cc, λ h. cc)
unheld_sell true false input entry = (λ h. ground arith, λ h. ground arith)
unheld_sell false downgraded input entry = (λ h. ground arith, λ h. ground arith)

mapped_iff :
    (decision : SignalDecision) (stance : Stance) (input : BearishInput) (verdict : Value)
    (confidence : Number) (entry : Restriction)
    → let after = record input {
      whipsaw_downgraded = (apply_whipsaw_gate decision verdict confidence).downgraded;
    } in
      ((map_stance decision stance after ≡ some (thesis_invalidation entry)) ↔ (
        (decision ≡ sell)
        × (stance ≡ bearish)
        × (input.symbol_held ≡ true)
        × (normalize_whipsaw_verdict verdict ≡ reversal)
        × (end_of_term input.now thesis_invalidation_days ≡ some entry.expires_at)
        × (entry.symbol ≡ input.symbol)
        × (entry.source_id ≡ input.source_id)))
      × ((map_stance decision stance after ≡ some (do_not_buy entry)) ↔ (
          (decision ≡ sell)
          × (stance ≡ bearish)
          × (input.symbol_held ≡ false)
          × (end_of_term input.now do_not_buy_days ≡ some entry.expires_at)
          × (entry.symbol ≡ input.symbol)
          × (entry.source_id ≡ input.source_id)))
unfolding map_stance apply_whipsaw_gate
mapped_iff sell bearish input verdict confidence entry =
    let read = normalize_whipsaw_verdict verdict in
    let after = record input { whipsaw_downgraded = (gate_sell read confidence).downgraded } in
    let held = held_sell input.symbol_held (gate_sell read confidence).downgraded after entry in
    let unheld = unheld_sell input.symbol_held (gate_sell read confidence).downgraded after entry in
    let verified = downgraded_sell read confidence in
    (
      (
        λ h. let k = held.0 h in (refl, refl, k.0, verified.0 k.1, k.2, k.3, k.4),
        λ (a, b, c, d, e, f, g). held.1 (c, verified.1 d, e, f, g),
      ),
      (
        λ h. let k = unheld.0 h in (refl, refl, k.0, k.1, k.2, k.3),
        λ (a, b, c, d, e, f). unheld.1 (c, d, e, f),
      ),
    )
mapped_iff sell bullish input verdict confidence entry = ((λ h. cc, λ h. cc), (λ h. cc, λ h. cc))
mapped_iff sell neutral input verdict confidence entry = ((λ h. cc, λ h. cc), (λ h. cc, λ h. cc))
mapped_iff buy bearish input verdict confidence entry = ((λ h. cc, λ h. cc), (λ h. cc, λ h. cc))
mapped_iff buy bullish input verdict confidence entry = ((λ h. cc, λ h. cc), (λ h. cc, λ h. cc))
mapped_iff buy neutral input verdict confidence entry = ((λ h. cc, λ h. cc), (λ h. cc, λ h. cc))
mapped_iff hold stance input verdict confidence entry = ((λ h. cc, λ h. cc), (λ h. cc, λ h. cc))
mapped_iff nothing stance input verdict confidence entry = ((λ h. cc, λ h. cc), (λ h. cc, λ h. cc))

-- Behind the whipsaw gate a thesis is invalidated exactly for a bearish SELL of a held symbol whose
-- verdict is a reversal, and a symbol is barred from buying exactly for a bearish SELL of a symbol
-- that is not held, whatever the verdict; the entry names the symbol, the source and the end of the
-- term, which has to be a date.
pub bearish_iff :
    (input : BearishInput) (verdict : Value) (confidence : Number) (entry : Restriction)
    → ((evaluate_bearish_mapping (behind_gate input verdict confidence)
          ≡ some (thesis_invalidation entry))
        ↔ ((input.original_decision ≡ sell)
            × (normalize_stance input.stance ≡ bearish)
            × (input.symbol_held ≡ true)
            × (normalize_whipsaw_verdict verdict ≡ reversal)
            × (end_of_term input.now thesis_invalidation_days ≡ some entry.expires_at)
            × (entry.symbol ≡ input.symbol)
            × (entry.source_id ≡ input.source_id)))
      × ((evaluate_bearish_mapping (behind_gate input verdict confidence) ≡ some (do_not_buy entry))
          ↔ ((input.original_decision ≡ sell)
              × (normalize_stance input.stance ≡ bearish)
              × (input.symbol_held ≡ false)
              × (end_of_term input.now do_not_buy_days ≡ some entry.expires_at)
              × (entry.symbol ≡ input.symbol)
              × (entry.source_id ≡ input.source_id)))
unfolding evaluate_bearish_mapping
bearish_iff input verdict confidence entry =
    mapped_iff input.original_decision (normalize_stance input.stance) input verdict confidence
      entry
