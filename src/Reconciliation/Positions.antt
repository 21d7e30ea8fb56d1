-- ===== src/Reconciliation/Positions.antt =====
-- When the ledger and the broker's positions agree.
use quantpaca.Base.{
  ◌≡◌, refl, sym, ap, ◌⊎◌, ◌↔◌, inl, inr, true, false, List, [], ◌∷◌, ◌++◌, Option, none, some,
  arith, Bool-cases,
}
use quantpaca.Js.Number.{Number}
use quantpaca.Js.Text.{Text, text_eq, text_eq_sound}
use quantpaca.Js.Value.{Value}
use quantpaca.Js.Object.{lookup, keys, has_key, has_key-keys}
use quantpaca.Risk.Portfolio.{AlpacaPosition}
use quantpaca.Reconciliation.{
  Mismatch, LocalTrade, nonzero, live_map, is_drift, compare_symbol, distinct_onto, compare_symbols,
  compare_positions, matched, status_of, compute_expected_positions,
  build_position_reconciliation_report,
}

-- Both sides know a symbol and its quantities are within the tolerance, or neither knows it.
abbrev pub Agrees : Option Number → Option Number → Type 0
Agrees none none = Unit
Agrees none (some actual) = ⊥
Agrees (some expected) none = ⊥
Agrees (some expected) (some actual) = is_drift expected actual ≡ false

append_nil : (l r : List Mismatch) → (l ++ r ≡ []) → (l ≡ []) × (r ≡ [])
append_nil [] r h = (refl, h)
append_nil (m ∷ l) r h = cc

Agrees-compare_symbol : (s : Text) (e a : Option Number) → compare_symbol s e a ≡ [] → Agrees e a
unfolding compare_symbol
Agrees-compare_symbol s none none h = tt
Agrees-compare_symbol s none (some a) h = cc
Agrees-compare_symbol s (some e) none h = cc
Agrees-compare_symbol s (some e) (some a) h = ground arith

compare_symbol-Agrees : (s : Text) (e a : Option Number) → Agrees e a → compare_symbol s e a ≡ []
unfolding compare_symbol
compare_symbol-Agrees s none none h = refl
compare_symbol-Agrees s none (some a) h = ground arith
compare_symbol-Agrees s (some e) none h = ground arith
compare_symbol-Agrees s (some e) (some a) h = rw h refl

none_listed :
    (key : Text) (ss : List Text) (e l : List (Text × Number))
    → compare_symbols ss e l ≡ []
    → has_key key ss ≡ true
    → Agrees (lookup key e) (lookup key l)
unfolding compare_symbols has_key
none_listed key [] e l h k = cc
none_listed key (s ∷ ss) e l h k =
    let (here, rest) = append_nil _ _ h in
    elim (Bool-cases (text_eq s key)) [
      | inl same ↦ rw (sym (text_eq_sound s key same)) (Agrees-compare_symbol s _ _ here)
      | inr other ↦ none_listed key ss e l rest (ground (arith, other, k))
    ]

all_agree :
    (ss : List Text) (e l : List (Text × Number))
    → ((key : Text) → Agrees (lookup key e) (lookup key l))
    → compare_symbols ss e l ≡ []
unfolding compare_symbols
all_agree [] e l h = refl
all_agree (s ∷ ss) e l h =
    rw (compare_symbol-Agrees s (lookup s e) (lookup s l) (h s)) (all_agree ss e l h)

has_key-append :
    (key : Text) (a b : List Text)
    → (has_key key a ≡ true) ⊎ (has_key key b ≡ true)
    → has_key key (a ++ b) ≡ true
unfolding has_key
has_key-append key [] b (inl h) = cc
has_key-append key [] b (inr h) = h
has_key-append key (k ∷ a) b h = ground (arith, has_key-append key a b)

has_key-same :
    (s key : Text) (seen : List Text) → text_eq s key ≡ true → has_key s seen ≡ has_key key seen
has_key-same s key seen h = ap (λ t. has_key t seen) (text_eq_sound s key h)

has_key-distinct_onto :
    (key : Text) (ss seen : List Text)
    → (has_key key ss ≡ true) ⊎ (has_key key seen ≡ true)
    → has_key key (distinct_onto ss seen) ≡ true
unfolding distinct_onto has_key
has_key-distinct_onto key [] seen h = ground arith
has_key-distinct_onto key (s ∷ ss) seen h = ground (
  arith,
  has_key-same s key seen,
  has_key-append key seen (s ∷ []),
  has_key-distinct_onto key ss seen,
  has_key-distinct_onto key ss (seen ++ (s ∷ [])),
)

-- A key of neither side is unknown to both.
unlisted_agree :
    (key : Text) (e l : List (Text × Number))
    → (has_key key (distinct_onto (keys e ++ keys l) []) ≡ true)
      ⊎ ((lookup key e ≡ none) × (lookup key l ≡ none))
unlisted_agree key e l = ground (
  arith,
  has_key-keys key e,
  has_key-keys key l,
  has_key-append key (keys e) (keys l),
  has_key-distinct_onto key (keys e ++ keys l) [],
)

Agrees-unknown : (e a : Option Number) → (e ≡ none) × (a ≡ none) → Agrees e a
Agrees-unknown none none h = tt
Agrees-unknown none (some a) h = ground arith
Agrees-unknown (some e) none h = ground arith
Agrees-unknown (some e) (some a) h = ground arith

-- The comparison reports nothing exactly if every symbol agrees: the ledger's quantities that are
-- not zero and the broker's readable quantities are known for the same symbols and within the
-- tolerance of each other.
pub compare_positions_agree :
    (expected : List (Text × Number)) (positions : List AlpacaPosition)
    → (compare_positions expected positions ≡ []) ↔ (
        (symbol : Text)
        → Agrees (lookup symbol (nonzero expected)) (lookup symbol (live_map positions [])))
unfolding compare_positions
compare_positions_agree expected positions =
    let wanted = nonzero expected in
    let live = live_map positions [] in
    (
      λ h symbol. elim (unlisted_agree symbol wanted live) [
        | inl listed ↦ none_listed symbol _ wanted live h listed
        | inr unknown ↦ Agrees-unknown (lookup symbol wanted) (lookup symbol live) unknown
      ],
      λ h. all_agree _ wanted live h,
    )

append_both : (l r : List Mismatch) → l ≡ [] → r ≡ [] → l ++ r ≡ []
append_both l r h k = rw h k

status_matched : (all : List Mismatch) → (status_of all ≡ matched) ↔ (all ≡ [])
unfolding status_of
status_matched [] = (λ h. refl, λ h. refl)
status_matched (m ∷ ms) = (λ h. cc, λ h. cc)

-- A report says `matched` exactly if every counted trade has a readable quantity and every symbol
-- agrees between the ledger, with the acknowledged baselines, and the broker.
pub report_matched_iff :
    (trades : List LocalTrade) (positions : List AlpacaPosition) (baselines : List (Text × Value))
    → let e = compute_expected_positions trades baselines in
      ((build_position_reconciliation_report trades positions baselines).status ≡ matched) ↔ (
        (e.ledger_gaps ≡ [])
        × ((symbol : Text)
            → Agrees (lookup symbol (nonzero e.expected)) (lookup symbol (live_map positions []))))
unfolding build_position_reconciliation_report
report_matched_iff trades positions baselines =
    let e = compute_expected_positions trades baselines in
    let (found, clean) = compare_positions_agree e.expected positions in
    let (empty, shown) = status_matched (e.ledger_gaps ++ compare_positions e.expected positions) in
    (
      λ h. let (gaps, rest) = append_nil _ _ (empty h) in (gaps, found rest),
      λ (gaps, agreed). shown (append_both _ _ gaps (clean agreed)),
    )
