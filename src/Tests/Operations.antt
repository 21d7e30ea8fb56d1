-- ===== src/Tests/Operations.antt =====
-- The watchdog, the start-up check, the backups and the Telegram commands at concrete inputs.
use quantpaca.Base.{
  ◌≤◌, ◌≡◌, ◌↔◌, refl, true, false, not, [], ◌∷◌, ◌++◌, List, map, Option, none, some, length, any,
  keep, arith,
}
use Prim.Native.Nat.{min}
use quantpaca.Js.Number.{Number, num, is_finite, eq, lt, le, abs}
use quantpaca.Js.Arith.{add, sub, mul, rem, floor}
use quantpaca.Js.Numeral.{number_of_text}
use quantpaca.Js.Text.{
  Text, text, text_eq, filled, trim, words, sort_texts, after_prefix, ends_with, to_upper, to_lower,
  includes, split,
}
use quantpaca.Js.Text.Sorted.{IsAscending}
use quantpaca.Heartbeat.{
  WatchdogState, WatchdogCheck, should_send_heartbeat, check_watchdog, should_alert_overdue_gap,
  is_cycle_overdue, read_stamp,
}
use quantpaca.Heartbeat.Gaps.{delivered_alerts, alert_once}
use quantpaca.StartupChecks.{validate_startup_env, trimmed, live_requested, equals_setting}
use quantpaca.StartupChecks.Fatal.{is_fatal, IsStartable, IsStartable-iff}
use quantpaca.Backup.{
  BackupDeps, BackupState, sqlite_backup_filename, db_json_backup_filename, backup_stamp,
  prune_old_backups, run_backup, with_snapshot, extract_backup_stamps, select_stamps_to_delete,
  backup_retention_count,
}
use quantpaca.Backup.Retention.{is_pruned, kept_stamps, run_backup_keeps}
use quantpaca.Telegram.{
  TelegramRole, admin, viewer, allowed, insufficient_role, authorize_telegram_command,
  parse_telegram_admin_roles, role_value, required_role, command_roles, create_confirmation_token,
  consume_confirmation_token,
}
use quantpaca.Exits.{iso_time}
use quantpaca.Js.Object.{lookup, store}
use quantpaca.Telegram.Commands.{Update, handle_telegram_command, command_of}
use quantpaca.Telegram.Commands.Pending.{IsAllowed, AskedIn, state_after}
use quantpaca.Telegram.Commands.Confirmed.{reset_needs_request}
use quantpaca.SenderPolicy.{
  evaluate_sender, SenderDecision, parse_from_address, is_blocklisted, normalized_allowlist,
  global_sender_blocklist, global_sender_blocklist_domain_suffixes,
}

-- The twelfth and twenty-fourth cycle have a heartbeat, the start and the thirteenth have none.
beats :
    map should_send_heartbeat (num 12 ∷ num 24 ∷ num 0 ∷ num 13 ∷ [])
    ≡ true ∷ true ∷ false ∷ false ∷ []
unfolding should_send_heartbeat num lt eq rem
beats = refl

-- The start-up check where nothing is set: live trading is not asked for.
abbrev bare : Text → Option Text
bare name = none

IsStartable-iff_example : (any is_fatal (validate_startup_env bare) ≡ false) ↔ IsStartable bare
IsStartable-iff_example = IsStartable-iff bare

bare_starts : any is_fatal (validate_startup_env bare) ≡ false
unfolding validate_startup_env trimmed live_requested equals_setting text trim text_eq filled
    is_fatal
bare_starts = refl

-- A backup where every call succeeds.
abbrev deps : BackupDeps
deps = record {
  now = num 0;
  iso = text "1970-01-01T00:00:00.000Z";
  dir_ready = true;
  sqlite_written = true;
  db_json = some false;
  json_written = false;
  listable = true;
  deletable = λ name. true;
  readable = λ key. true;
  writable = λ key. true;
  alert = none;
}

abbrev no_text : Number → Text
no_text n = []

-- The sets of fifteen earlier backups.
abbrev crowded : BackupState
crowded = record {
  files =
      map (λ c. sqlite_backup_filename (text "1969-12-" ++ (c ∷ [])))
        (b'a' ∷ b'b' ∷ b'c' ∷ b'd' ∷ b'e' ∷ b'f' ∷ b'g' ∷ b'h' ∷ b'i' ∷ b'j' ∷ b'k' ∷ b'l' ∷ b'm'
          ∷ b'n' ∷ b'o' ∷ []);
  app_state = [];
}

backed_up : (run_backup no_text deps crowded).1 ≡ true
unfolding run_backup
backed_up = refl

run_backup_keeps_example :
    let present = with_snapshot deps false crowded.files in
    let stamps = extract_backup_stamps present in
    let gone = select_stamps_to_delete stamps in
    ((run_backup no_text deps crowded).0.files ≡ keep (λ f. not (is_pruned deps present f)) present)
    × (gone ++ kept_stamps stamps ≡ sort_texts stamps)
    × IsAscending (gone ++ kept_stamps stamps)
    × (length (kept_stamps stamps) ≡ min backup_retention_count (length stamps))
run_backup_keeps_example = run_backup_keeps no_text deps crowded false refl backed_up

-- Two of the sixteen sets are gone after the run.
prunes_two : length (run_backup no_text deps crowded).0.files ≡ 14
unfolding run_backup with_snapshot prune_old_backups select_stamps_to_delete extract_backup_stamps
    sort_texts sqlite_backup_filename db_json_backup_filename backup_stamp text text_eq ends_with
    filled after_prefix
prunes_two = refl

-- An admin asks for a breaker reset and confirms it a minute later.
abbrev same : Text → Text
same t = t

abbrev admins : List (Text × TelegramRole)
admins = (text "7", admin) ∷ []

abbrev asks : Update
asks = record {
  text = text "/breaker_reset";
  chat_id = text "1";
  user_id = text "7";
  now = num 0;
  iso = text "1970-01-01T00:00:00.000Z";
  random = text "r";
}

abbrev confirms : Update
confirms = record asks { text = text "/confirm 7:BREAKER_"; now = num 60000 }

resets :
    (handle_telegram_command same admins
      (state_after same admins true (asks ∷ []))
      confirms).breaker_reset
    ≡ true
unfolding handle_telegram_command state_after command_of authorize_telegram_command role_value
    required_role command_roles lookup store create_confirmation_token consume_confirmation_token
    iso_time add mul num le lt abs is_finite floor text text_eq words trim filled to_upper includes
resets = refl

reset_needs_request_example :
    IsAllowed same admins confirms
    × (command_of confirms ≡ text "/confirm")
    × AskedIn same admins (asks ∷ []) confirms
reset_needs_request_example = reset_needs_request same admins true (asks ∷ []) confirms resets

-- The roles of the environment; an unknown role is left out.
roles_read :
    parse_telegram_admin_roles (some (text "7:admin, 8 : viewer,9:boss"))
    ≡ (text "7", admin) ∷ (text "8", viewer) ∷ []
unfolding parse_telegram_admin_roles split trim text text_eq filled store
roles_read = refl

viewer_may_not :
    authorize_telegram_command (text "8") (text "/pause") ((text "8", viewer) ∷ [])
    ≡ insufficient_role
unfolding authorize_telegram_command role_value required_role command_roles lookup text text_eq
viewer_may_not = refl

-- A name that every object has is no command, but passes the ranks.
inherited_passes :
    authorize_telegram_command (text "8") (text "constructor") ((text "8", viewer) ∷ []) ≡ allowed
unfolding authorize_telegram_command role_value required_role command_roles lookup text text_eq
    includes
inherited_passes = refl

-- A block list wins over the list of a source.
broker_blocked :
    evaluate_sender (some (text "Alpaca <News@Alpaca.markets>")) (text "news@alpaca.markets" ∷ [])
    ≡ SenderDecision.blocked (text "news@alpaca.markets") true
unfolding evaluate_sender parse_from_address is_blocklisted normalized_allowlist
    global_sender_blocklist global_sender_blocklist_domain_suffixes text text_eq filled includes
    trim to_lower ends_with
broker_blocked = refl

-- The watchdog where the last cycle ended at the epoch and every check comes an hour later.
abbrev late_check : WatchdogCheck
late_check = record {
  auto_trading_on = true;
  last_readable = true;
  alerted_readable = true;
  now = num 3600000;
  interval_minutes = num 15;
  delivered = true;
  saves = true;
}

abbrev at_epoch : WatchdogState
at_epoch = record { last_completed = some (text "0"); alerted_gap = none }

abbrev show_zero : Number → Text
show_zero n = text "0"

reads_zero :
    (n : Number)
    → read_stamp at_epoch.last_completed ≡ some n
    → eq (number_of_text (show_zero n)) n ≡ true
unfolding read_stamp number_of_text text trim is_finite eq
reads_zero n h = ground arith

alert_once_example : delivered_alerts show_zero (late_check ∷ late_check ∷ []) at_epoch ≤ 1
alert_once_example =
    alert_once show_zero (late_check ∷ late_check ∷ []) at_epoch reads_zero
      ((refl, refl, (refl, refl, tt)))

-- The first of these checks does alert.
alerts : (check_watchdog show_zero late_check at_epoch).1 ≡ true
unfolding check_watchdog should_alert_overdue_gap is_cycle_overdue read_stamp number_of_text text
    trim is_finite num mul sub lt eq
alerts = refl
