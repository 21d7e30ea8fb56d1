-- ===== src/Telegram.antt =====
-- src/server/telegramEngine.ts: roles, authorization and confirmation tokens. SHA-256, random bytes
-- and the ISO text of the clock are parameters.
use quantpaca.Base.{
  ℕ, Bool, true, false, not, ◌&&◌, ◌||◌, List, [], ◌∷◌, ◌++◌, map, Option, none, some,
  if◌then◌else◌, ltb, ◌==◌, or_else, take, is_some,
}
use quantpaca.Js.Number.{Number, num, lt}
use quantpaca.Js.Arith.{add}
use quantpaca.Js.Text.{Text, text, text_eq, filled, includes, trim, to_upper, split}
use quantpaca.Js.Object.{lookup, store}
use quantpaca.Exits.{iso_time}
pub mod Commands

pub data TelegramRole : Type 0 where
  viewer operator trader admin : TelegramRole

role_named : Text → Option TelegramRole
role_named name =
    if text_eq name (text "viewer")
    then some viewer
    else if text_eq name (text "operator")
    then some operator
    else if text_eq name (text "trader")
    then some trader
    else if text_eq name (text "admin")
    then some admin
    else none

unfoldable pub command_roles : List (Text × TelegramRole)
command_roles =
    (text "/status", viewer)
    ∷ (text "/health", viewer)
    ∷ (text "/positions", viewer)
    ∷ (text "/orders", viewer)
    ∷ (text "/trades", viewer)
    ∷ (text "/risk", viewer)
    ∷ (text "/regime", viewer)
    ∷ (text "/sync", operator)
    ∷ (text "/dry_run", operator)
    ∷ (text "/pause", operator)
    ∷ (text "/resume", operator)
    ∷ (text "/block_buys", operator)
    ∷ (text "/close_all", admin)
    ∷ (text "/breaker_reset", admin)
    ∷ []

abbrev pub role_rank : TelegramRole → ℕ
role_rank viewer = 1
role_rank operator = 2
role_rank trader = 3
role_rank admin = 4

-- The names that every object inherits, whose values are truthy and no roles.
abbrev inherited_names : List Text
inherited_names =
    text "constructor"
    ∷ text "__proto__"
    ∷ text "__defineGetter__"
    ∷ text "__defineSetter__"
    ∷ text "__lookupGetter__"
    ∷ text "__lookupSetter__"
    ∷ text "hasOwnProperty"
    ∷ text "isPrototypeOf"
    ∷ text "propertyIsEnumerable"
    ∷ text "toLocaleString"
    ∷ text "toString"
    ∷ text "valueOf"
    ∷ []

-- What `object[name]` gives on an object of roles.
pub data RoleValue : Type 0 where
  role : TelegramRole → RoleValue
  inherited absent : RoleValue

unfoldable pub role_value : Text → List (Text × TelegramRole) → RoleValue
role_value name roles = elim (lookup name roles) [
  | some r ↦ role r
  | none ↦ if includes inherited_names name then inherited else absent
]

-- `commandRoles[command] || "admin"`
unfoldable pub required_role : Text → RoleValue
required_role command = elim (role_value command command_roles) [
  | role r ↦ role r
  | inherited ↦ inherited
  | absent ↦ role admin
]

-- `roleRank[a] < roleRank[b]`, which is false where one of them is no role.
rank_below : RoleValue → RoleValue → Bool
rank_below (role a) (role b) = ltb (role_rank a) (role_rank b)
rank_below (role a) inherited = false
rank_below (role a) absent = false
rank_below inherited _ = false
rank_below absent _ = false

pub data Authorization : Type 0 where
  allowed unauthorized_user insufficient_role : Authorization

authorize : RoleValue → RoleValue → Authorization
unfolding rank_below
authorize absent required = unauthorized_user
authorize inherited required = allowed
authorize (role r) required = if rank_below (role r) required then insufficient_role else allowed

unfoldable pub authorize_telegram_command : Text → Text → List (Text × TelegramRole) → Authorization
unfolding authorize
authorize_telegram_command user command roles =
    authorize (role_value user roles) (required_role command)

-- Of the parts of an item the first two count; an assignment to `__proto__` of a text has no effect.
put_role : List Text → List (Text × TelegramRole) → List (Text × TelegramRole)
unfolding role_named
put_role (id ∷ name ∷ rest) roles = elim (role_named name) [
  | none ↦ roles
  | some r ↦ if filled id && not (text_eq id (text "__proto__")) then store id r roles else roles
]
put_role (id ∷ []) roles = roles
put_role [] roles = roles

put_roles : List Text → List (Text × TelegramRole) → List (Text × TelegramRole)
unfolding put_role
put_roles [] roles = roles
put_roles (item ∷ items) roles = put_roles items (put_role (map trim (split b':' item)) roles)

unfoldable pub parse_telegram_admin_roles : Option Text → List (Text × TelegramRole)
unfolding put_roles
parse_telegram_admin_roles env = put_roles (split b',' (or_else env [])) []

pub record ConfirmationToken : Type 0 where
  pub id : Text
  pub token : Text
  pub user_id : Text
  pub action : Text
  pub expires_at : Number

abbrev pub confirmation_ttl_ms : ℕ
confirmation_ttl_ms = 300000

module _ (hash : Text → Text) where
  token_until : Text → Text → Text → Number → ConfirmationToken
  token_until raw user action until = record {
    id = take 16 (hash raw);
    token = to_upper (take 10 (hash (raw ++ text ":token")));
    user_id = user;
    action = action;
    expires_at = until;
  }

  -- A token of the usual term, from the clock, its ISO text and random bytes; `none` where the date
  -- throws.
  unfoldable pub create_confirmation_token :
      Text → Text → Number → Text → Text → Option ConfirmationToken
  unfolding token_until
  create_confirmation_token user action now iso random =
      elim (iso_time (add now (num confirmation_ttl_ms))) [
        | none ↦ none
        | some until ↦ some (
            token_until
              (user ++ (text ":" ++ (action ++ (text ":" ++ (iso ++ (text ":" ++ random)))))) user
              action until)
      ]

pub data Consumption : Type 0 where
  accepted replayed wrong_user wrong_action expired : Consumption

-- The outcome for the ids consumed so far, which an accepted token joins.
unfoldable pub consume_confirmation_token :
    List Text → ConfirmationToken → Text → Text → Number → Consumption × List Text
consume_confirmation_token consumed token user action now =
    if includes consumed token.id
    then (replayed, consumed)
    else if not (text_eq token.user_id user)
    then (wrong_user, consumed)
    else if not (text_eq token.action action)
    then (wrong_action, consumed)
    else if lt token.expires_at now
    then (expired, consumed)
    else (accepted, token.id ∷ consumed)
