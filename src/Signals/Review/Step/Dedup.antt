-- ===== src/Signals/Review/Step/Dedup.antt =====
-- Duplicates across separate reviews (src/server/signalReviewStep.ts).
use quantpaca.Base.{
  ℕ, zero, suc, ◌+◌, ◌≤◌, ◌<◌, ◌≡◌, ◌≢◌, refl, sym, ap, ◌∙◌, Bool, true, false, not, ◌&&◌, ◌||◌,
  List, [], ◌∷◌, ◌++◌, map, if◌then◌else◌, Option, none, some, arith, any, keep, take, length,
  length-keep,
}
use quantpaca.Js.Number.{Number}
use quantpaca.Js.Text.{Text, text, text_eq, filled, includes, join, text_eq_sound, text_eq_refl}
use quantpaca.Signals.Review.{
  RawSignal, ReviewedSignal, ReviewOptions, accepted, rejected, duplicate, review_signal,
  compute_duplicate_key, review_status, reviewed_id,
}
use quantpaca.Signals.Review.Step.{
  ReviewedRow, save_reviewed_signal, load_recent_duplicate_keys, seen_keys_window,
  review_and_persist_signal, keyed, keyed_row, insert_recent, sort_recent,
}

no_match_before {ℓ} :
    {A : Type ℓ} (p : A → Bool) (n : ℕ) (xs : List A) → any p xs ≡ false → any p (take n xs) ≡ false
no_match_before p zero xs h = refl
no_match_before p (suc n) [] h = refl
no_match_before p (suc n) (x ∷ xs) h = ground (arith, no_match_before p n xs)

take_all {ℓ} : {A : Type ℓ} (n : ℕ) (xs : List A) → length xs ≤ n → take n xs ≡ xs
take_all zero [] h = refl
take_all zero (x ∷ xs) h = absurd (omega arith)
take_all (suc n) [] h = refl
take_all (suc n) (x ∷ xs) h = ap (λ ys. x ∷ ys) (take_all n xs (omega arith))

-- Whether one of the pairs of a timestamp and a key has the key.
has_pair : Text → List (Text × Text) → Bool
has_pair key [] = false
has_pair key ((t, k) ∷ pairs) = text_eq k key || has_pair key pairs

has_pair-includes :
    (key : Text) (pairs : List (Text × Text))
    → includes (map (λ (t, k). k) pairs) key ≡ has_pair key pairs
unfolding has_pair includes
has_pair-includes key [] = refl
has_pair-includes key ((t, k) ∷ pairs) = ap (λ b. text_eq k key || b) (has_pair-includes key pairs)

has_pair-insert :
    (key t k : Text) (pairs : List (Text × Text))
    → has_pair key (insert_recent (t, k) pairs) ≡ text_eq k key || has_pair key pairs
unfolding has_pair insert_recent
has_pair-insert key t k [] = refl
has_pair-insert key t k ((u, other) ∷ pairs) = ground (arith, has_pair-insert key t k pairs)

has_pair-sort :
    (key : Text) (pairs : List (Text × Text))
    → has_pair key (sort_recent pairs) ≡ has_pair key pairs
unfolding has_pair sort_recent
has_pair-sort key [] = refl
has_pair-sort key ((t, k) ∷ pairs) =
    has_pair-insert key t k (sort_recent pairs)
    ∙ ap (λ b. text_eq k key || b) (has_pair-sort key pairs)

length-insert :
    (t k : Text) (pairs : List (Text × Text))
    → length (insert_recent (t, k) pairs) ≡ suc (length pairs)
unfolding insert_recent
length-insert t k [] = refl
length-insert t k ((u, other) ∷ pairs) = ground (arith, length-insert t k pairs)

length-sort : (pairs : List (Text × Text)) → length (sort_recent pairs) ≡ length pairs
unfolding sort_recent
length-sort [] = refl
length-sort ((t, k) ∷ pairs) = length-insert t k (sort_recent pairs) ∙ ap suc (length-sort pairs)

length-map_key : (pairs : List (Text × Text)) → length (map (λ (t, k). k) pairs) ≡ length pairs
length-map_key [] = refl
length-map_key ((t, k) ∷ pairs) = ap suc (length-map_key pairs)

length-keyed_row :
    (t : Text) (k : Option Text) (pairs : List (Text × Text))
    → length (keyed_row t k pairs) ≤ suc (length pairs)
unfolding keyed_row
length-keyed_row t none pairs = omega arith
length-keyed_row t (some k) pairs = omega arith

length-keyed : (rows : List ReviewedRow) → length (keyed rows) ≤ length rows
unfolding keyed
length-keyed [] = omega arith
length-keyed (row ∷ rows) =
    omega (arith, length-keyed_row row.timestamp row.duplicate_key (keyed rows), length-keyed rows)

-- Whether the row has the key.
holds : Text → Option Text → Bool
holds key none = false
holds key (some k) = text_eq k key

-- Whether some row has the key, whatever its id is.
has_key : Text → List ReviewedRow → Bool
unfolding holds
has_key key rows = any (λ row. holds key row.duplicate_key) rows

has_pair-keyed_row :
    (key t : Text) (k : Option Text) (pairs : List (Text × Text))
    → has_pair key (keyed_row t k pairs) ≡ holds key k || has_pair key pairs
unfolding keyed_row holds has_pair
has_pair-keyed_row key t none pairs = refl
has_pair-keyed_row key t (some k) pairs = refl

has_pair-keyed :
    (key : Text) (rows : List ReviewedRow) → has_pair key (keyed rows) ≡ has_key key rows
unfolding keyed has_key has_pair
has_pair-keyed key [] = refl
has_pair-keyed key (row ∷ rows) =
    has_pair-keyed_row key row.timestamp row.duplicate_key (keyed rows)
    ∙ ap (λ b. holds key row.duplicate_key || b) (has_pair-keyed key rows)

-- While the rows fit the window, the loaded keys are those of the table.
includes-load :
    (key : Text) (rows : List ReviewedRow)
    → length rows ≤ seen_keys_window
    → includes (load_recent_duplicate_keys seen_keys_window rows) key ≡ has_key key rows
unfolding load_recent_duplicate_keys
includes-load key rows h =
    let sorted = sort_recent (keyed rows) in
    ap (λ ks. includes ks key)
      (take_all seen_keys_window (map (λ (t, k). k) sorted)
        (omega (arith, length-map_key sorted, length-sort (keyed rows), length-keyed rows)))
    ∙ has_pair-includes key sorted
    ∙ has_pair-sort key (keyed rows)
    ∙ has_pair-keyed key rows

-- Whether the row with the id has the key.
holds_key : Text → Text → List ReviewedRow → Bool
unfolding holds
holds_key id key rows = any (λ row. text_eq row.id id && holds key row.duplicate_key) rows

has_key_of_holds :
    (id key : Text) (rows : List ReviewedRow)
    → holds_key id key rows ≡ true
    → has_key key rows ≡ true
unfolding holds_key has_key
has_key_of_holds id key [] h = cc
has_key_of_holds id key (row ∷ rows) h = ground (arith, has_key_of_holds id key rows)

-- A row of another id stays.
other_stays :
    (row id new : Text) (b : Bool)
    → text_eq id new ≡ false
    → text_eq row id && b ≡ true
    → text_eq row new ≡ false
other_stays row id new b h k = ground (arith, text_eq_sound row id)

holds_key-keep :
    (id new key : Text) (rows : List ReviewedRow)
    → text_eq id new ≡ false
    → holds_key id key rows ≡ true
    → holds_key id key (keep (λ row. not (text_eq row.id new)) rows) ≡ true
unfolding holds_key
holds_key-keep id new key [] h k = k
holds_key-keep id new key (row ∷ rows) h k = ground (
  arith,
  other_stays row.id id new (holds key row.duplicate_key) h,
  holds_key-keep id new key rows h,
)

has_key-keep :
    (p : ReviewedRow → Bool) (key : Text) (rows : List ReviewedRow)
    → has_key key rows ≡ false
    → has_key key (keep p rows) ≡ false
unfolding has_key
has_key-keep p key [] h = refl
has_key-keep p key (row ∷ rows) h = ground (arith, has_key-keep p key rows)

filled_append : (s : Text) (c : ℕ) (t : Text) → filled (s ++ c ∷ t) ≡ true
unfolding filled
filled_append [] c t = refl
filled_append (d ∷ s) c t = refl

filled-compute_duplicate_key : (raw : RawSignal) → filled (compute_duplicate_key raw) ≡ true
unfolding compute_duplicate_key join text
filled-compute_duplicate_key raw = filled_append raw.source _ _

module _ (hash : Text → Text) (parse_date : Text → Number) where
  duplicate_stops :
      (options : ReviewOptions) (seen : List Text) (raw : RawSignal)
      → includes seen (compute_duplicate_key raw) ≡ true
      → review_status hash parse_date options seen raw ≢ accepted
  unfolding review_status
  duplicate_stops options seen raw h k = ground (arith, h)

  -- What an accepted signal says of its review with other seen keys.
  only_keys_differ :
      (options : ReviewOptions) (seen others : List Text) (raw : RawSignal)
      → review_status hash parse_date options seen raw ≡ accepted
      → (includes seen (compute_duplicate_key raw) ≡ false)
        × (review_status hash parse_date options others raw ≡ (
            if includes others (compute_duplicate_key raw) then rejected duplicate else accepted))
  unfolding review_status
  only_keys_differ options seen others raw h = (ground (arith), ground (arith))

  status-review :
      (options : ReviewOptions) (raw : RawSignal) (rows : List ReviewedRow)
      → (review_and_persist_signal hash parse_date options raw rows).0.status
        ≡ review_status hash parse_date options
            (load_recent_duplicate_keys seen_keys_window rows)
            raw
  unfolding review_and_persist_signal review_signal
  status-review options raw rows = refl

  length-save :
      (signal : ReviewedSignal) (key : Option Text) (rows : List ReviewedRow)
      → length (save_reviewed_signal signal key rows) ≤ suc (length rows)
  unfolding save_reviewed_signal
  length-save signal key rows =
      omega (arith, length-keep (λ row. not (text_eq row.id signal.id)) rows)

  length-review :
      (options : ReviewOptions) (raw : RawSignal) (rows : List ReviewedRow)
      → length (review_and_persist_signal hash parse_date options raw rows).1 ≤ suc (length rows)
  unfolding review_and_persist_signal
  length-review options raw rows = length-save _ _ rows

  -- An accepted signal leaves a row of its id with its key.
  accepted_holds :
      (options : ReviewOptions) (raw : RawSignal) (rows : List ReviewedRow)
      → (review_and_persist_signal hash parse_date options raw rows).0.status ≡ accepted
      → holds_key
          (reviewed_id hash raw)
          (compute_duplicate_key raw)
          (review_and_persist_signal hash parse_date options raw rows).1
        ≡ true
  unfolding review_and_persist_signal review_signal save_reviewed_signal holds_key
  accepted_holds options raw rows h =
      rw
        (
          h,
          filled-compute_duplicate_key raw,
          text_eq_refl (reviewed_id hash raw),
          text_eq_refl (compute_duplicate_key raw),
        )
        refl

  -- The review of a signal of another id keeps the row.
  review_holds :
      (id key : Text) (options : ReviewOptions) (raw : RawSignal) (rows : List ReviewedRow)
      → text_eq id (reviewed_id hash raw) ≡ false
      → holds_key id key rows ≡ true
      → holds_key id key (review_and_persist_signal hash parse_date options raw rows).1 ≡ true
  unfolding review_and_persist_signal review_signal save_reviewed_signal holds_key
  review_holds id key options raw rows other h =
      ground (arith, holds_key-keep id (reviewed_id hash raw) key rows other h)

  -- Signals reviewed one after the other.
  pub review_all : List (ReviewOptions × RawSignal) → List ReviewedRow → List ReviewedRow
  review_all [] rows = rows
  review_all ((options, raw) ∷ later) rows =
      review_all later (review_and_persist_signal hash parse_date options raw rows).1

  -- None of them has the id of the given signal.
  abbrev pub AllOther : Text → List (ReviewOptions × RawSignal) → Type 0
  AllOther id [] = Unit
  AllOther id ((options, raw) ∷ later) =
      (text_eq id (reviewed_id hash raw) ≡ false) × AllOther id later

  review_all-holds :
      (id key : Text) (later : List (ReviewOptions × RawSignal)) (rows : List ReviewedRow)
      → AllOther id later
      → holds_key id key rows ≡ true
      → (holds_key id key (review_all later rows) ≡ true)
        × (length (review_all later rows) ≤ length rows + length later)
  unfolding review_all
  review_all-holds id key [] rows other h = (h, omega arith)
  review_all-holds id key ((options, raw) ∷ later) rows other h =
      let rest =
        review_all-holds id key later (review_and_persist_signal hash parse_date options raw rows).1
          other.1 (review_holds id key options raw rows other.0 h) in
      (rest.0, omega (arith, rest.1, length-review options raw rows))

  -- An accepted signal blocks its key: in every sequence of later reviews of signals with other ids,
  -- while fewer rows and reviews than the window are there, no signal of that key is accepted.
  pub accepted_once :
      (options : ReviewOptions) (raw : RawSignal) (rows : List ReviewedRow)
      → (review_and_persist_signal hash parse_date options raw rows).0.status ≡ accepted
      → (later : List (ReviewOptions × RawSignal)) → AllOther (reviewed_id hash raw) later
      → length rows + length later < seen_keys_window
      → (again : ReviewOptions) (copy : RawSignal)
      → compute_duplicate_key copy ≡ compute_duplicate_key raw
      → (review_and_persist_signal hash parse_date again copy (
          review_all later (review_and_persist_signal hash parse_date options raw rows).1)).0.status
        ≢ accepted
  accepted_once options raw rows h later other fits again copy same k =
      let id = reviewed_id hash raw in
      let key = compute_duplicate_key raw in
      let after = (review_and_persist_signal hash parse_date options raw rows).1 in
      let kept = review_all-holds id key later after other (accepted_holds options raw rows h) in
      let final = review_all later after in
      let loaded =
        includes-load key final (omega (arith, kept.1, length-review options raw rows)) in
      duplicate_stops again (load_recent_duplicate_keys seen_keys_window final) copy
        (rw same (loaded ∙ has_key_of_holds id key final kept.0))
        (sym (status-review again copy final) ∙ k)

  -- The review of the same signal again, whose duplicate row replaces the one with the key.
  duplicate_forgets :
      (options : ReviewOptions) (raw : RawSignal) (rows : List ReviewedRow)
      → (review_and_persist_signal hash parse_date options raw rows).0.status ≡ rejected duplicate
      → has_key
          (compute_duplicate_key raw)
          (keep (λ row. not (text_eq row.id (reviewed_id hash raw))) rows)
        ≡ false
      → has_key
          (compute_duplicate_key raw)
          (review_and_persist_signal hash parse_date options raw rows).1
        ≡ false
  unfolding review_and_persist_signal review_signal save_reviewed_signal has_key
  duplicate_forgets options raw rows h k = rw h k

  -- Its own row aside, no row has the key of a signal that is accepted.
  accepted_new :
      (options : ReviewOptions) (raw : RawSignal) (rows : List ReviewedRow)
      → has_key (compute_duplicate_key raw) rows ≡ false
      → has_key (compute_duplicate_key raw) (
          keep
            (λ row. not (text_eq row.id (reviewed_id hash raw)))
            (review_and_persist_signal hash parse_date options raw rows).1)
        ≡ false
  unfolding review_and_persist_signal review_signal save_reviewed_signal
  accepted_new options raw rows h =
      rw (text_eq_refl (reviewed_id hash raw)) (has_key-keep _ _ _ (has_key-keep _ _ rows h))

  -- A signal that is accepted and then reviewed twice more, with the same options and while its
  -- rows fit the window, is first rejected as a duplicate and then accepted once more.
  pub accepted_again :
      (options : ReviewOptions) (raw : RawSignal) (rows : List ReviewedRow)
      → suc (suc (length rows)) ≤ seen_keys_window
      → (review_and_persist_signal hash parse_date options raw rows).0.status ≡ accepted
      → let once = (review_and_persist_signal hash parse_date options raw rows).1 in
        let twice = review_and_persist_signal hash parse_date options raw once in
        (twice.0.status ≡ rejected duplicate)
        × ((review_and_persist_signal hash parse_date options raw twice.1).0.status ≡ accepted)
  accepted_again options raw rows fits h =
      let key = compute_duplicate_key raw in
      let load = load_recent_duplicate_keys seen_keys_window in
      let once = (review_and_persist_signal hash parse_date options raw rows).1 in
      let twice = (review_and_persist_signal hash parse_date options raw once).1 in
      let first = sym (status-review options raw rows) ∙ h in
      let fresh =
        sym (includes-load key rows (omega arith))
        ∙ (only_keys_differ options (load rows) [] raw first).0 in
      let seen =
        includes-load key once (omega (arith, length-review options raw rows))
        ∙ has_key_of_holds (reviewed_id hash raw) key once (accepted_holds options raw rows h) in
      let grown = length-review options raw once in
      let space : length twice ≤ seen_keys_window = omega (arith, length-review options raw rows) in
      let second =
        status-review options raw once
        ∙ (only_keys_differ options (load rows) (load once) raw first).1
        ∙ rw seen refl in
      let gone =
        includes-load key twice space
        ∙ duplicate_forgets options raw once second (accepted_new options raw rows fresh) in
      (
        second,
        status-review options raw twice
            ∙ (only_keys_differ options (load rows) (load twice) raw first).1
            ∙ rw gone refl,
      )
