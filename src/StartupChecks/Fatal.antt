-- ===== src/StartupChecks/Fatal.antt =====
-- When the program may start.
use quantpaca.Base.{
  ◌≡◌, ◌↔◌, ◌⊎◌, refl, Bool, true, false, not, ◌&&◌, ◌||◌, List, [], ◌∷◌, ◌++◌, Option, arith, any,
  length, leb,
}
use quantpaca.Js.Text.{Text, text, text_eq, filled}
use quantpaca.StartupChecks.{
  StartupIssue, fatal, warn, validate_startup_env, admin_issues, mode_issues, read_issues,
  google_issues, trimmed, live_requested, min_token_length,
}

unfoldable pub is_fatal : StartupIssue → Bool
is_fatal (fatal _) = true
is_fatal (warn _) = false

any-append :
    (xs ys : List StartupIssue) → any is_fatal (xs ++ ys) ≡ any is_fatal xs || any is_fatal ys
any-append [] ys = refl
any-append (x ∷ xs) ys = ground (arith, any-append xs ys)

-- A token that protects something: not the placeholder, and of sixteen characters or more.
abbrev pub is_strong : Text → Bool
is_strong token = not (text_eq token (text "change-me")) && leb min_token_length (length token)

-- The conditions under which the start goes on.
pub record IsStartable (env : Text → Option Text) : Type 0 where
  pub admin :
      (is_strong (trimmed env (text "ADMIN_API_TOKEN")) ≡ true)
      ⊎ (filled (trimmed env (text "ADMIN_API_TOKEN")) ≡ false) × (live_requested env ≡ false)
  pub read :
      (is_strong (trimmed env (text "QUANTPACA_READ_TOKEN")) ≡ true)
      ⊎ (filled (trimmed env (text "QUANTPACA_READ_TOKEN")) ≡ false)
  pub google :
      (filled (trimmed env (text "GOOGLE_CLIENT_ID"))
        ≡ filled (trimmed env (text "GOOGLE_CLIENT_SECRET")))
      × (filled (trimmed env (text "GOOGLE_CLIENT_SECRET"))
          ≡ filled (trimmed env (text "GOOGLE_REFRESH_TOKEN")))

empty_ne_placeholder : text_eq [] (text "change-me") ≡ false
unfolding text_eq text
empty_ne_placeholder = refl

admin_iff :
    (live : Bool) (token : Text)
    → (any is_fatal (admin_issues live token) ≡ false)
      ↔ ((is_strong token ≡ true) ⊎ (filled token ≡ false) × (live ≡ false))
unfolding admin_issues is_fatal filled
admin_iff live [] =
    (λ h. ground (arith, empty_ne_placeholder), λ h. ground (arith, empty_ne_placeholder))
admin_iff live (c ∷ s) = (λ h. ground arith, λ h. ground arith)

read_iff :
    (token : Text)
    → (any is_fatal (read_issues token) ≡ false)
      ↔ ((is_strong token ≡ true) ⊎ (filled token ≡ false))
unfolding read_issues is_fatal filled
read_iff [] = (λ h. ground (arith, empty_ne_placeholder), λ h. ground (arith, empty_ne_placeholder))
read_iff (c ∷ s) = (λ h. ground arith, λ h. ground arith)

google_iff :
    (env : Text → Option Text)
    → (any is_fatal (google_issues env) ≡ false) ↔ (
        (filled (trimmed env (text "GOOGLE_CLIENT_ID"))
          ≡ filled (trimmed env (text "GOOGLE_CLIENT_SECRET")))
        × (filled (trimmed env (text "GOOGLE_CLIENT_SECRET"))
            ≡ filled (trimmed env (text "GOOGLE_REFRESH_TOKEN"))))
unfolding google_issues is_fatal
google_iff env = (λ h. ground arith, λ h. ground arith)

mode_never_fatal : (env : Text → Option Text) → any is_fatal (mode_issues env) ≡ false
unfolding mode_issues is_fatal
mode_never_fatal env = ground arith

-- The start-up check finds nothing fatal exactly if each token is unset or a strong one, the admin
-- token is set where live trading is asked for, and the three Google settings are all set or all
-- unset.
pub IsStartable-iff :
    (env : Text → Option Text) → (any is_fatal (validate_startup_env env) ≡ false) ↔ IsStartable env
unfolding validate_startup_env
IsStartable-iff env =
    let admin = admin_issues (live_requested env) (trimmed env (text "ADMIN_API_TOKEN")) in
    let read = read_issues (trimmed env (text "QUANTPACA_READ_TOKEN")) in
    let google = google_issues env in
    let split = any-append admin (mode_issues env ++ (read ++ google)) in
    let split_rest = any-append (mode_issues env) (read ++ google) in
    let split_last = any-append read google in
    let mode = mode_never_fatal env in
    let a = admin_iff (live_requested env) (trimmed env (text "ADMIN_API_TOKEN")) in
    let r = read_iff (trimmed env (text "QUANTPACA_READ_TOKEN")) in
    let g = google_iff env in
    (
      λ h. record {
        admin = a.0 (ground arith);
        read = r.0 (ground arith);
        google = g.0 (ground arith);
      },
      λ h.
          let admin_ok = a.1 h.admin in
          let read_ok = r.1 h.read in let google_ok = g.1 h.google in ground arith,
    )
