-- ===== src/Telegram/Commands.antt =====
-- `handleTelegramCommand` of server.ts up to the replies: what a message does to the pending
-- confirmations and to the switch of automated trading. The writes of the store are taken to succeed.
use quantpaca.Base.{
  Bool, true, false, not, ◌&&◌, ◌||◌, List, [], ◌∷◌, Option, none, some, if◌then◌else◌, keep,
}
use quantpaca.Js.Number.{Number}
use quantpaca.Js.Text.{Text, text, text_eq, filled, trim, words}
use quantpaca.Js.Object.{lookup, store}
use quantpaca.Telegram.{
  TelegramRole, Authorization, allowed, unauthorized_user, insufficient_role,
  authorize_telegram_command, ConfirmationToken, create_confirmation_token, Consumption, accepted,
  replayed, wrong_user, wrong_action, expired, consume_confirmation_token,
}
pub mod Pending
pub mod Confirmed

pub record Update : Type 0 where
  pub text : Text
  pub chat_id : Text
  pub user_id : Text
  pub now : Number
  pub iso : Text
  pub random : Text

pub record TelegramState : Type 0 where
  pub pending : List (Text × ConfirmationToken)
  pub consumed : List Text
  pub auto_trading : Bool

pub data Reply : Type 0 where
  rejected : Authorization → Reply
  unknown_token trading_paused trading_resumed : Reply
  confirmation_rejected : Consumption → Reply
  confirmed : Text → Reply
  close_all_asks reset_asks : Text → Reply
  answered : Text → Reply

-- The state after a message, the reply that the message itself has, and whether the breaker reset is
-- to be executed. A message without a text, a chat or a user has no effect, and neither has one
-- whose token cannot be made.
pub record Handled : Type 0 where
  pub state : TelegramState
  pub reply : Option Reply
  pub breaker_reset : Bool

handled : TelegramState → Reply → Handled
handled state reply = record { state = state; reply = some reply; breaker_reset = false }

ignored : TelegramState → Handled
ignored state = record { state = state; reply = none; breaker_reset = false }

-- `text.split(/\s+/)[0]` and `[1]`.
unfoldable pub command_of : Update → Text
command_of update = elim (words update.text) [ [] ↦ [] | w ∷ ws ↦ w ]

second_of : List Text → Option Text
second_of [] = none
second_of (w ∷ []) = none
second_of (w ∷ v ∷ ws) = some v

-- A consumed token: the pending entry goes, and a breaker reset is executed.
redeem : TelegramState → Update → Text → ConfirmationToken → Consumption × List Text → Handled
unfolding handled
redeem state update key token (accepted, consumed) =
    let left = record state {
      pending = keep (λ (k, t). not (text_eq k key)) state.pending;
      consumed = consumed;
    } in
    if text_eq token.action (text "breaker_reset")
    then record { state = left; reply = none; breaker_reset = true }
    else handled left (confirmed token.action)
redeem state update key token (outcome, consumed) =
    handled (record state { consumed = consumed }) (confirmation_rejected outcome)

confirm_key : TelegramState → Update → Option Text → Handled
unfolding redeem handled
confirm_key state update none = handled state unknown_token
confirm_key state update (some key) = elim (lookup key state.pending) [
  | none ↦ handled state unknown_token
  | some token ↦
      redeem state update key token
        (consume_confirmation_token state.consumed token update.user_id token.action update.now)
]

asks : Text → Text → Reply
asks action key = if text_eq action (text "close_all") then close_all_asks key else reset_asks key

-- The commands without a confirmation.
switch : TelegramState → Text → Handled
unfolding handled
switch state command =
    if text_eq command (text "/pause") || text_eq command (text "/block_buys")
    then handled (record state { auto_trading = false }) trading_paused
    else if text_eq command (text "/resume")
    then handled (record state { auto_trading = true }) trading_resumed
    else handled state (answered command)

module _ (hash : Text → Text) where
  ask : TelegramState → Update → Text → Handled
  unfolding handled ignored asks
  ask state update action =
      elim (create_confirmation_token hash update.user_id action update.now update.iso
        update.random) [
          | none ↦ ignored state
          | some token ↦
              handled (record state { pending = store token.token token state.pending })
                (asks action token.token)
        ]

  -- A message that is allowed, by its command.
  obey : TelegramState → Update → Text → Handled
  unfolding ask confirm_key second_of switch
  obey state update command =
      if text_eq command (text "/confirm")
      then confirm_key state update (second_of (words update.text))
      else if text_eq command (text "/close_all")
      then ask state update (text "close_all")
      else if text_eq command (text "/breaker_reset")
      then ask state update (text "breaker_reset")
      else switch state command

  respond : TelegramState → Update → Authorization → Handled
  unfolding obey handled
  respond state update allowed = obey state update (command_of update)
  respond state update denied = handled state (rejected denied)

  unfoldable pub handle_telegram_command :
      List (Text × TelegramRole) → TelegramState → Update → Handled
  unfolding respond ignored
  handle_telegram_command roles state update =
      if filled (trim update.text) && (filled update.chat_id && filled update.user_id)
      then respond state update
          (authorize_telegram_command update.user_id (command_of update) roles)
      else ignored state
