-- ===== src/Backup/Retention.antt =====
-- Which backups are kept.
use quantpaca.Base.{
  ℕ, zero, suc, ◌-◌, ◌≤◌, ◌≡◌, refl, sym, ap, ◌∙◌, Bool, true, false, not, ◌&&◌, ◌||◌, List, [],
  ◌∷◌, ◌++◌, some, keep, take, length, ltb, arith, Bool-cases, inl, inr,
}
use Prim.Native.Nat.{min}
use quantpaca.Js.Number.{Number}
use quantpaca.Js.Text.{Text, text_eq, text_eq_sound, sort_texts}
use quantpaca.Js.Text.Sorted.{IsAscending, sort-IsAscending, length-sort_texts}
use quantpaca.Backup.{
  BackupDeps, BackupState, run_backup, stamp_success, with_snapshot, prune_old_backups, delete_sets,
  delete_file, select_stamps_to_delete, extract_backup_stamps, backup_retention_count,
  sqlite_backup_filename, db_json_backup_filename, put_state,
}

drop {ℓ} : {A : Type ℓ} → ℕ → List A → List A
drop zero xs = xs
drop (suc n) [] = []
drop (suc n) (x ∷ xs) = drop n xs

take-drop {ℓ} : {A : Type ℓ} (n : ℕ) (xs : List A) → take n xs ++ drop n xs ≡ xs
unfolding drop
take-drop zero xs = refl
take-drop (suc n) [] = refl
take-drop (suc n) (x ∷ xs) = ap (λ ys. x ∷ ys) (take-drop n xs)

length-drop {ℓ} : {A : Type ℓ} (n : ℕ) (xs : List A) → length (drop n xs) ≡ length xs - n
unfolding drop
length-drop zero xs = omega arith
length-drop (suc n) [] = omega arith
length-drop (suc n) (x ∷ xs) = omega (arith, length-drop n xs)

drop_none {ℓ} : {A : Type ℓ} (n : ℕ) (xs : List A) → n ≡ 0 → drop n xs ≡ xs
unfolding drop
drop_none zero xs h = refl
drop_none (suc n) xs h = absurd (omega arith)

at_least : (a b : ℕ) → ltb a b ≡ false → b ≤ a
at_least a b h = ground arith

-- The names of the files of a backup set.
pub names_set : List Text → Text → Bool
names_set [] name = false
names_set (stamp ∷ stamps) name =
    text_eq name (sqlite_backup_filename stamp)
    || (text_eq name (db_json_backup_filename stamp) || names_set stamps name)

keep-keep {ℓ} :
    {A : Type ℓ} (p q : A → Bool) (xs : List A) → keep p (keep q xs) ≡ keep (λ x. q x && p x) xs
keep-keep p q [] = refl
keep-keep p q (x ∷ xs) = ground (arith, keep-keep p q xs)

keep_ext {ℓ} :
    {A : Type ℓ} (p q : A → Bool) → ((x : A) → p x ≡ q x) → (xs : List A) → keep p xs ≡ keep q xs
keep_ext p q h [] = refl
keep_ext p q h (x ∷ xs) = ground (arith, h x, keep_ext p q h xs)

keep_all {ℓ} : {A : Type ℓ} (p : A → Bool) → ((x : A) → p x ≡ true) → (xs : List A) → keep p xs ≡ xs
keep_all p h [] = refl
keep_all p h (x ∷ xs) = ground (arith, h x, keep_all p h xs)

-- A name that is deleted takes that file out, and no other, where it can be deleted at all.
deleted :
    (deps : BackupDeps) (name : Text) (files : List Text)
    → delete_file deps name files ≡ keep (λ f. not (text_eq f name && deps.deletable f)) files
unfolding delete_file
deleted deps name files =
    let same : (f : Text) → text_eq f name ≡ true → deps.deletable f ≡ deps.deletable name =
      λ f h. ap deps.deletable (text_eq_sound f name h) in
    elim (Bool-cases (deps.deletable name)) [
      | inl can ↦ rw can (keep_ext _ _ (λ f. ground (arith, same f, can)) files)
      | inr cannot ↦ rw cannot (
          sym (
            keep_all (λ f. not (text_eq f name && deps.deletable f))
              (λ f. ground (arith, same f, cannot)) files))
    ]

either_way :
    (a b c d : Bool) → (not (a && d) && (not (b && d) && not (c && d))) ≡ not ((a || (b || c)) && d)
either_way a b c d = ground arith

-- Exactly the files of the sets that can be deleted are gone.
delete_sets_all :
    (deps : BackupDeps) (stamps files : List Text)
    → delete_sets deps stamps files ≡ keep (λ f. not (names_set stamps f && deps.deletable f)) files
unfolding delete_sets names_set
delete_sets_all deps [] files =
    sym (keep_all (λ f. not (false && deps.deletable f)) (λ f. refl) files)
delete_sets_all deps (stamp ∷ stamps) files =
    let sqlite = sqlite_backup_filename stamp in
    let json = db_json_backup_filename stamp in
    let without = keep (λ f. not (text_eq f sqlite && deps.deletable f)) files in
    ap (λ l. delete_sets deps stamps (delete_file deps json l)) (deleted deps sqlite files)
    ∙ ap (delete_sets deps stamps) (deleted deps json without)
    ∙ delete_sets_all deps stamps (keep (λ f. not (text_eq f json && deps.deletable f)) without)
    ∙ keep-keep (λ f. not (names_set stamps f && deps.deletable f))
        (λ f. not (text_eq f json && deps.deletable f)) without
    ∙ keep-keep
        (λ f.
          not (text_eq f json && deps.deletable f) && not (names_set stamps f && deps.deletable f))
        (λ f. not (text_eq f sqlite && deps.deletable f)) files
    ∙ keep_ext _
        (λ f.
          not ((text_eq f sqlite || (text_eq f json || names_set stamps f)) && deps.deletable f))
        (λ f.
          either_way (text_eq f sqlite) (text_eq f json) (names_set stamps f) (deps.deletable f))
        files

-- The selected stamps and those that are kept.
pub kept_stamps : List Text → List Text
kept_stamps stamps = drop (length stamps - backup_retention_count) (sort_texts stamps)

select_split :
    (stamps : List Text)
    → (select_stamps_to_delete stamps ++ kept_stamps stamps ≡ sort_texts stamps)
      × (length (kept_stamps stamps) ≡ min backup_retention_count (length stamps))
unfolding select_stamps_to_delete kept_stamps
select_split stamps =
    let sorted = sort_texts stamps in
    let count = length-sort_texts stamps in
    (
      elim (Bool-cases (ltb backup_retention_count (length stamps))) [
        | inl more ↦ rw (count, more) (take-drop (length stamps - backup_retention_count) sorted)
        | inr fewer ↦ rw (count, fewer) (drop_none _ sorted (omega (arith, at_least _ _ fewer)))
      ],
      omega (arith, length-drop (length stamps - backup_retention_count) sorted, count),
    )

success_files :
    (show_number : Number → Text) (deps : BackupDeps) (state : BackupState)
    → (stamp_success show_number deps state).1 ≡ true
    → (stamp_success show_number deps state).0.files ≡ state.files
unfolding stamp_success put_state
success_files show_number deps state h = ground arith

-- A file that the pruning of a listed directory takes out.
abbrev pub is_pruned : BackupDeps → List Text → Text → Bool
is_pruned deps present f =
    deps.listable
    && (names_set (select_stamps_to_delete (extract_backup_stamps present)) f && deps.deletable f)

pruned :
    (deps : BackupDeps) (files : List Text)
    → prune_old_backups deps files ≡ keep (λ f. not (is_pruned deps files f)) files
unfolding prune_old_backups
pruned deps files = elim (Bool-cases deps.listable) [
  | inl listed ↦
      rw listed (delete_sets_all deps (select_stamps_to_delete (extract_backup_stamps files)) files)
  | inr unlisted ↦ rw unlisted (sym (keep_all (λ f. true) (λ f. refl) files))
]

after_files :
    (show_number : Number → Text) (deps : BackupDeps) (state : BackupState) (json : Bool)
    → deps.db_json ≡ some json
    → (run_backup show_number deps state).1 ≡ true
    → let present = with_snapshot deps json state.files in
      (run_backup show_number deps state).0.files
      ≡ keep (λ f. not (is_pruned deps present f)) present
unfolding run_backup
after_files show_number deps state json has h =
    elim (Bool-cases (deps.dir_ready && deps.sqlite_written)) [
      | inl ready ↦
          let present = with_snapshot deps json state.files in
          let left = record state { files = prune_old_backups deps present } in
          rw (ready, has)
            (success_files show_number deps left (ground (arith, h, ready, has))
              ∙ pruned deps present)
      | inr unready ↦ absurd (ground (arith, h, unready))
    ]

-- A run that succeeds takes the new snapshot into the directory and, where the directory can be
-- listed, removes exactly the files of the selected stamps that can be deleted; the selected stamps
-- come first in the ascending order of all stamps, and the newest fourteen, or all, are left over.
pub run_backup_keeps :
    (show_number : Number → Text) (deps : BackupDeps) (state : BackupState) (json : Bool)
    → deps.db_json ≡ some json
    → (run_backup show_number deps state).1 ≡ true
    → let present = with_snapshot deps json state.files in
      let stamps = extract_backup_stamps present in
      let gone = select_stamps_to_delete stamps in
      ((run_backup show_number deps state).0.files
        ≡ keep (λ f. not (is_pruned deps present f)) present)
      × (gone ++ kept_stamps stamps ≡ sort_texts stamps)
      × IsAscending (gone ++ kept_stamps stamps)
      × (length (kept_stamps stamps) ≡ min backup_retention_count (length stamps))
run_backup_keeps show_number deps state json has h =
    let present = with_snapshot deps json state.files in
    let stamps = extract_backup_stamps present in
    let split = select_split stamps in
    (
      after_files show_number deps state json has h,
      split.0,
      rw split.0 (sort-IsAscending stamps),
      split.1,
    )
