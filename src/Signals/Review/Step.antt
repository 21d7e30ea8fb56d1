-- ===== src/Signals/Review/Step.antt =====
-- src/server/signalReviewStep.ts, with the rows of src/server/persistence.ts that it reads and
-- writes: INSERT OR REPLACE takes the old row out and puts the new one in front, and rows of one
-- timestamp, whose order SQL leaves open, stay in the order of the table.
use quantpaca.Base.{
  ℕ, Bool, true, false, not, ◌||◌, List, [], ◌∷◌, map, Option, none, some, if◌then◌else◌, ltb, ◌==◌,
  keep, take,
}
use quantpaca.Js.Number.{Number}
use quantpaca.Js.Text.{Text, text_eq, text_lt, filled}
use quantpaca.Signals.Review.{
  RawSignal, ReviewedSignal, ReviewOptions, ReviewStatus, accepted, rejected, review_signal,
  compute_duplicate_key,
}
pub mod Dedup

pub record ReviewedRow : Type 0 where
  pub id : Text
  pub timestamp : Text
  pub duplicate_key : Option Text
  pub payload : ReviewedSignal

-- `duplicateKey || null`
key_or_null : Option Text → Option Text
key_or_null none = none
key_or_null (some key) = if filled key then some key else none

unfoldable pub save_reviewed_signal :
    ReviewedSignal → Option Text → List ReviewedRow → List ReviewedRow
unfolding key_or_null
save_reviewed_signal signal key rows =
    record {
      id = signal.id;
      timestamp = signal.source_timestamp;
      duplicate_key = key_or_null key;
      payload = signal;
    }
    ∷ keep (λ row. not (text_eq row.id signal.id)) rows

-- The timestamps and keys of the rows that have a key.
keyed_row : Text → Option Text → List (Text × Text) → List (Text × Text)
keyed_row timestamp none rest = rest
keyed_row timestamp (some key) rest = (timestamp, key) ∷ rest

keyed : List ReviewedRow → List (Text × Text)
unfolding keyed_row
keyed [] = []
keyed (row ∷ rows) = keyed_row row.timestamp row.duplicate_key (keyed rows)

-- `ORDER BY timestamp DESC`
insert_recent : Text × Text → List (Text × Text) → List (Text × Text)
unfolding text_lt
insert_recent (t, key) [] = (t, key) ∷ []
insert_recent (t, key) ((u, other) ∷ rows) =
    if text_lt t u then (u, other) ∷ insert_recent (t, key) rows else (t, key) ∷ (u, other) ∷ rows

sort_recent : List (Text × Text) → List (Text × Text)
unfolding insert_recent
sort_recent [] = []
sort_recent (row ∷ rows) = insert_recent row (sort_recent rows)

unfoldable pub load_recent_duplicate_keys : ℕ → List ReviewedRow → List Text
unfolding keyed sort_recent
load_recent_duplicate_keys limit rows =
    take limit (map (λ (t, key). key) (sort_recent (keyed rows)))

abbrev pub seen_keys_window : ℕ
seen_keys_window = 1000

-- The key that is saved with a signal.
saved_key : ReviewStatus → RawSignal → Option Text
saved_key accepted raw = some (compute_duplicate_key raw)
saved_key (rejected _) raw = none

module _ (hash : Text → Text) (parse_date : Text → Number) where
  unfoldable pub review_and_persist_signal :
      ReviewOptions → RawSignal → List ReviewedRow → ReviewedSignal × List ReviewedRow
  unfolding saved_key
  review_and_persist_signal options raw rows =
      let (reviewed, seen) =
        review_signal hash parse_date options (load_recent_duplicate_keys seen_keys_window rows)
          raw in
      (reviewed, save_reviewed_signal reviewed (saved_key reviewed.status raw) rows)
