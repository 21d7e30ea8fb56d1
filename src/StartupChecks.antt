-- ===== src/StartupChecks.antt =====
-- src/server/startupChecks.ts: what is wrong with the environment at the start. The fixed texts of
-- the messages are constructors.
use quantpaca.Base.{
  ℕ, Bool, true, false, not, ◌&&◌, ◌||◌, List, [], ◌∷◌, ◌++◌, Option, none, some, if◌then◌else◌,
  ltb, or_else, keep, length,
}
use quantpaca.Js.Text.{Text, text, text_eq, filled, includes, trim}
pub mod Fatal

pub data IssueMessage : Type 0 where
  admin_placeholder admin_short live_needs_admin admin_unset : IssueMessage
  live_without_mode : IssueMessage
  read_placeholder read_short read_unset : IssueMessage
  partial_google : List Text → IssueMessage

pub data StartupIssue : Type 0 where
  fatal warn : IssueMessage → StartupIssue

abbrev pub min_token_length : ℕ
min_token_length = 16

-- `(env[name] || "").trim()`
unfoldable pub trimmed : (Text → Option Text) → Text → Text
trimmed env name = trim (or_else (env name) [])

-- `env[name] === value`
unfoldable pub equals_setting : (Text → Option Text) → Text → Text → Bool
equals_setting env name value = elim (env name) [ none ↦ false | some v ↦ text_eq v value ]

unfoldable pub live_requested : (Text → Option Text) → Bool
live_requested env =
    equals_setting env (text "TRADING_MODE") (text "live")
    || equals_setting env (text "LIVE_TRADING_ENABLED") (text "true")

admin_issues : Bool → Text → List StartupIssue
admin_issues live token =
    if text_eq token (text "change-me")
    then fatal admin_placeholder ∷ []
    else if filled token && ltb (length token) min_token_length
    then fatal admin_short ∷ []
    else if filled token
    then []
    else if live
    then fatal live_needs_admin ∷ []
    else warn admin_unset ∷ []

mode_issues : (Text → Option Text) → List StartupIssue
mode_issues env =
    if equals_setting env (text "LIVE_TRADING_ENABLED") (text "true")
      && not (equals_setting env (text "TRADING_MODE") (text "live"))
    then warn live_without_mode ∷ []
    else []

read_issues : Text → List StartupIssue
read_issues token =
    if text_eq token (text "change-me")
    then fatal read_placeholder ∷ []
    else if filled token && ltb (length token) min_token_length
    then fatal read_short ∷ []
    else if filled token
    then []
    else warn read_unset ∷ []

abbrev pub google_env_vars : List Text
google_env_vars =
    text "GOOGLE_CLIENT_ID" ∷ text "GOOGLE_CLIENT_SECRET" ∷ text "GOOGLE_REFRESH_TOKEN" ∷ []

google_issues : (Text → Option Text) → List StartupIssue
google_issues env =
    let present = keep (λ name. filled (trimmed env name)) google_env_vars in
    if ltb 0 (length present) && ltb (length present) (length google_env_vars)
    then fatal (partial_google (keep (λ name. not (includes present name)) google_env_vars)) ∷ []
    else []

unfoldable pub validate_startup_env : (Text → Option Text) → List StartupIssue
unfolding admin_issues mode_issues read_issues google_issues
validate_startup_env env =
    admin_issues (live_requested env) (trimmed env (text "ADMIN_API_TOKEN"))
    ++ (mode_issues env
        ++ (read_issues (trimmed env (text "QUANTPACA_READ_TOKEN")) ++ google_issues env))
