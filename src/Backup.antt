-- ===== src/Backup.antt =====
-- src/server/backupEngine.ts, over a directory and an application state. What can fail around it (the
-- file system, the store, the alert) is a record of answers; log lines are left out.
use quantpaca.Base.{
  ℕ, ◌-◌, Bool, true, false, not, ◌&&◌, ◌||◌, List, [], ◌∷◌, ◌++◌, Option, none, some,
  if◌then◌else◌, keep, any, take, length, ltb, ◌==◌,
}
use mathlib.Core.List.{reverse}
use quantpaca.Js.Number.{Number, num, lt, le, eq, is_finite}
use quantpaca.Js.Arith.{sub, rem}
use quantpaca.Js.Text.{Text, text, text_eq, filled, includes, ends_with, after_prefix, sort_texts}
use quantpaca.Js.Numeral.{number_of_text}
use quantpaca.Js.Object.{lookup, store}
pub mod Retention

abbrev pub backup_every_n_cycles : ℕ
backup_every_n_cycles = 48

abbrev pub backup_retention_count : ℕ
backup_retention_count = 14

abbrev pub backup_failure_alert_threshold_ms : ℕ
backup_failure_alert_threshold_ms = 86400000

unfoldable pub backup_last_success_key : Text
backup_last_success_key = text "backup_last_success_at_ms"

unfoldable pub backup_failing_since_key : Text
backup_failing_since_key = text "backup_failing_since_ms"

unfoldable pub backup_alerted_since_key : Text
backup_alerted_since_key = text "backup_alerted_failing_since_ms"

unfoldable pub should_run_scheduled_backup : Number → Bool
should_run_scheduled_backup count =
    lt (num 0) count && eq (rem count (num backup_every_n_cycles)) (num 0)

dashed : Text → Text
dashed [] = []
dashed (c ∷ s) = (if c == b':' || c == b'.' then b'-' else c) ∷ dashed s

-- The stamp of a date, from its ISO text.
unfoldable pub backup_stamp : Text → Text
unfolding dashed
backup_stamp iso = dashed iso

unfoldable pub sqlite_backup_filename : Text → Text
sqlite_backup_filename stamp = text "quantpaca-" ++ (stamp ++ text ".sqlite")

unfoldable pub db_json_backup_filename : Text → Text
db_json_backup_filename stamp = text "db-" ++ (stamp ++ text ".json")

-- What `.` of a regular expression does not match.
is_line_end : ℕ → Bool
is_line_end c = c == 10 || c == 13 || c == 0x2028 || c == 0x2029

-- The stamp of /^quantpaca-(.+)\.sqlite$/, where a name matches it.
stamp_of : Text → Option Text
unfolding is_line_end
stamp_of name = elim (after_prefix (text "quantpaca-") name) [
  | none ↦ none
  | some rest ↦
      let stamp = take (length rest - 7) rest in
      if ends_with rest (text ".sqlite") && filled stamp && not (any is_line_end stamp)
      then some stamp
      else none
]

stamps_of : List Text → List Text
unfolding stamp_of
stamps_of [] = []
stamps_of (name ∷ names) =
    let rest = stamps_of names in elim (stamp_of name) [ none ↦ rest | some s ↦ s ∷ rest ]

unfoldable pub extract_backup_stamps : List Text → List Text
unfolding stamps_of
extract_backup_stamps filenames = sort_texts (stamps_of filenames)

unfoldable pub select_stamps_to_delete : List Text → List Text
select_stamps_to_delete stamps =
    let sorted = sort_texts stamps in
    if ltb backup_retention_count (length sorted)
    then take (length sorted - backup_retention_count) sorted
    else []

unfoldable pub is_backup_failure_overdue : Option Number → Number → Bool
is_backup_failure_overdue none now = false
is_backup_failure_overdue (some since) now =
    is_finite since && lt (num backup_failure_alert_threshold_ms) (sub now since)

same_since : Option Number → Number → Bool
same_since none since = false
same_since (some alerted) since = eq alerted since

unfoldable pub should_alert_backup_failure : Number → Number → Option Number → Bool
unfolding same_since
should_alert_backup_failure since now alerted =
    is_backup_failure_overdue (some since) now && not (same_since alerted since)

-- The directory of the backups and the saved state.
pub record BackupState : Type 0 where
  pub files : List Text
  pub app_state : List (Text × Text)

-- What the calls around a run do: which of them throw, and the file names that can be deleted.
pub record BackupDeps : Type 0 where
  pub now : Number
  pub iso : Text
  pub dir_ready : Bool
  pub sqlite_written : Bool
  -- `dbJsonExists()`, `none` where it throws.
  pub db_json : Option Bool
  pub json_written : Bool
  pub listable : Bool
  pub deletable : Text → Bool
  pub readable : Text → Bool
  pub writable : Text → Bool
  pub alert : Option Bool

-- A text as a number where the store can be read and holds one.
read_state_ms : BackupDeps → Text → BackupState → Option Number
read_state_ms deps key state =
    if deps.readable key
    then elim (lookup key state.app_state) [
      | none ↦ none
      | some raw ↦
          let parsed = number_of_text raw in
          if filled raw && is_finite parsed then some parsed else none
    ]
    else none

delete_file : BackupDeps → Text → List Text → List Text
delete_file deps name files =
    if deps.deletable name then keep (λ f. not (text_eq f name)) files else files

delete_sets : BackupDeps → List Text → List Text → List Text
unfolding delete_file
delete_sets deps [] files = files
delete_sets deps (stamp ∷ stamps) files = delete_sets deps stamps (
    delete_file deps (db_json_backup_filename stamp)
      (delete_file deps (sqlite_backup_filename stamp) files))

unfoldable pub prune_old_backups : BackupDeps → List Text → List Text
unfolding delete_sets
prune_old_backups deps files =
    if deps.listable
    then delete_sets deps (select_stamps_to_delete (extract_backup_stamps files)) files
    else files

-- A write of the store; `none` where it throws.
put_state : BackupDeps → Text → Text → BackupState → Option BackupState
put_state deps key value state =
    if deps.writable key
    then some (record state { app_state = store key value state.app_state })
    else none

-- A write whose error is logged.
try_put_state : BackupDeps → Text → Text → BackupState → BackupState
unfolding put_state
try_put_state deps key value state = elim (put_state deps key value state) [
  | none ↦ state
  | some written ↦ written
]

-- The directory after the snapshot and the copy of db.json.
unfoldable pub with_snapshot : BackupDeps → Bool → List Text → List Text
with_snapshot deps json files =
    let stamp = backup_stamp deps.iso in
    let written = sqlite_backup_filename stamp ∷ files in
    if json && deps.json_written then db_json_backup_filename stamp ∷ written else written

module _ (show_number : Number → Text) where
  alert_failure : BackupDeps → Number → BackupState → BackupState
  unfolding try_put_state read_state_ms
  alert_failure deps since state =
      if should_alert_backup_failure since deps.now
        (read_state_ms deps backup_alerted_since_key state)
      then elim deps.alert [
        | some true ↦ try_put_state deps backup_alerted_since_key (show_number since) state
        | some false ↦ state
        | none ↦ state
      ]
      else state

  unfoldable pub handle_failure : BackupDeps → BackupState → BackupState
  unfolding alert_failure read_state_ms try_put_state
  handle_failure deps state = elim (read_state_ms deps backup_failing_since_key state) [
    | some since ↦ alert_failure deps since state
    | none ↦
        alert_failure deps deps.now
          (try_put_state deps backup_failing_since_key (show_number deps.now) state)
  ]

  -- The two stamps of a success.
  stamp_success : BackupDeps → BackupState → BackupState × Bool
  unfolding put_state
  stamp_success deps state =
      elim (put_state deps backup_last_success_key (show_number deps.now) state) [
        | none ↦ (handle_failure deps state, false)
        | some once ↦ elim (put_state deps backup_failing_since_key [] once) [
          | none ↦ (handle_failure deps once, false)
          | some twice ↦ (twice, true)
        ]
      ]

  -- `runBackup`: the state after it, and whether it succeeded. It throws nowhere.
  unfoldable pub run_backup : BackupDeps → BackupState → BackupState × Bool
  unfolding stamp_success with_snapshot
  run_backup deps state =
      if deps.dir_ready && deps.sqlite_written
      then elim deps.db_json [
        | none ↦ (
          handle_failure deps (record state { files = with_snapshot deps false state.files }),
          false,
        )
        | some json ↦
            stamp_success deps (record state {
              files = prune_old_backups deps (with_snapshot deps json state.files);
            })
      ]
      else (handle_failure deps state, false)
