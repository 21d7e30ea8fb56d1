-- ===== src/Reconciliation/Ledger.antt =====
-- What the expected positions are made of.
use quantpaca.Base.{
  ◌≡◌, ◌≢◌, refl, sym, ◌⊎◌, ◌↔◌, inl, inr, false, List, [], ◌∷◌, ◌++◌, arith, Bool-cases,
}
use mathlib.Core.Bool.{false≢true}
use quantpaca.Js.Number.{Number, num, lt, eq}
use quantpaca.Js.Text.{Text}
use quantpaca.Js.Value.{Value}
use quantpaca.NumericSafety.{ParsedFiniteNumber, ok, failed}
use quantpaca.Reconciliation.{
  Mismatch, LocalTrade, ExpectedPositions, floored, counts_as_position, counted_quantity,
  book_trade, book_trades, book, compute_expected_positions,
}

-- Every quantity of a ledger counts as one that is held.
abbrev pub AllHeld : List (Text × Number) → Type 0
AllHeld [] = Unit
AllHeld ((s, n) ∷ l) = (lt n (num 0) ≡ false) × (eq n (num 0) ≡ false) × AllHeld l

abbrev pub IsReadable : ParsedFiniteNumber → Type 0
IsReadable (ok n) = Unit
IsReadable (failed reason) = ⊥

-- Every trade that counts as a position has a quantity that can be read.
abbrev pub AllReadable : List LocalTrade → Type 0
AllReadable [] = Unit
AllReadable (t ∷ ts) =
    ((counts_as_position t.status ≡ false) ⊎ IsReadable (counted_quantity t)) × AllReadable ts

zero_held : lt (num 0) (num 0) ≡ false
unfolding lt num
zero_held = refl

AllHeld-floored : (l : List (Text × Number)) → AllHeld (floored l)
unfolding floored
AllHeld-floored [] = tt
AllHeld-floored ((s, n) ∷ l) = ground (arith, AllHeld-floored l, zero_held)

gap_added : (l : List Mismatch) (m : Mismatch) → l ++ (m ∷ []) ≢ []
gap_added [] m = ground arith
gap_added (n ∷ l) m = ground arith

book-IsReadable :
    (t : LocalTrade) (n : ParsedFiniteNumber) (e : ExpectedPositions)
    → ((book t n e).ledger_gaps ≡ []) ↔ (IsReadable n × (e.ledger_gaps ≡ []))
unfolding book
book-IsReadable t (ok n) e = (λ h. (tt, h), λ h. h.1)
book-IsReadable t (failed reason) e = (λ h. absurd (gap_added _ _ h), λ h. absurd h.0)

book_trade-IsReadable :
    (t : LocalTrade) (e : ExpectedPositions)
    → ((book_trade t e).ledger_gaps ≡ []) ↔ (
        ((counts_as_position t.status ≡ false) ⊎ IsReadable (counted_quantity t))
        × (e.ledger_gaps ≡ []))
unfolding book_trade
book_trade-IsReadable t e = elim (Bool-cases (counts_as_position t.status)) [
  | inl counted ↦
      let (into, back) = book-IsReadable t (counted_quantity t) e in
      rw counted (
        λ h. let (read, before) = into h in (inr read, before),
        λ (either, before). elim either [
          | inl absent ↦ absurd (false≢true (sym absent))
          | inr read ↦ back (read, before)
        ],
      )
  | inr not_counted ↦ rw not_counted (λ h. (inl refl, h), λ h. h.1)
]

gaps_of_trades :
    (ts : List LocalTrade) (e : ExpectedPositions)
    → ((book_trades ts e).ledger_gaps ≡ []) ↔ (AllReadable ts × (e.ledger_gaps ≡ []))
unfolding book_trades
gaps_of_trades [] e = (λ h. (tt, h), λ h. h.1)
gaps_of_trades (t ∷ ts) e =
    let (into, back) = gaps_of_trades ts (book_trade t e) in
    let (here, there) = book_trade-IsReadable t e in
    (
      λ h. let (rest, gaps) = into h in let (read, before) = here gaps in ((read, rest), before),
      λ ((read, rest), before). back (rest, there (read, before)),
    )

-- The ledger holds only quantities that are neither negative nor zero, and it has no gap exactly if
-- every trade that counts as a position has a quantity that can be read.
pub expected_positions_lem :
    (trades : List LocalTrade) (baselines : List (Text × Value))
    → let e = compute_expected_positions trades baselines in
      AllHeld e.expected × ((e.ledger_gaps ≡ []) ↔ AllReadable trades)
unfolding compute_expected_positions
expected_positions_lem trades baselines =
    let (into, back) = gaps_of_trades trades (record { expected = []; ledger_gaps = [] }) in
    (AllHeld-floored _, (λ h. (into h).0, λ h. back (h, refl)))
