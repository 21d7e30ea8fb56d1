-- ===== src/Telegram/Commands/Pending.antt =====
-- The confirmations that are pending, and the messages that they come from.
use quantpaca.Base.{
  ◌≡◌, ◌⊎◌, refl, inl, inr, Bool, false, List, [], ◌∷◌, some, keep, arith, Bool-cases,
}
use mathlib.Core.Path.{subst}
use quantpaca.Js.Number.{Number, num, lt}
use quantpaca.Js.Arith.{add}
use quantpaca.Js.Text.{Text, text, text_eq}
use quantpaca.Js.Object.{lookup, store}
use quantpaca.Exits.{iso_time}
use quantpaca.Telegram.{
  TelegramRole, allowed, authorize_telegram_command, ConfirmationToken, create_confirmation_token,
  confirmation_ttl_ms, token_until,
}
use quantpaca.Telegram.Commands.{Update, TelegramState, handle_telegram_command, command_of}

some_injective : (a b : ConfirmationToken) → some a ≡ some b → a ≡ b
some_injective a b h = cc

module _ (hash : Text → Text) (roles : List (Text × TelegramRole)) where
  -- The message is one of a user who may give its command.
  abbrev pub IsAllowed : Update → Type 0
  IsAllowed update = authorize_telegram_command update.user_id (command_of update) roles ≡ allowed

  -- The earlier message asks for a reset on behalf of the user of the later one, and its term covers
  -- the later one.
  pub record Asks (earlier later : Update) : Type 0 where
    pub permitted : IsAllowed earlier
    pub command : command_of earlier ≡ text "/breaker_reset"
    pub same_user : earlier.user_id ≡ later.user_id
    pub until : Number
    pub term : iso_time (add earlier.now (num confirmation_ttl_ms)) ≡ some until
    pub in_time : lt until later.now ≡ false

  abbrev pub AskedIn : List Update → Update → Type 0
  AskedIn [] later = ⊥
  AskedIn (u ∷ us) later = Asks u later ⊎ AskedIn us later

  -- The state after the messages, the newest of which stands first, from a start in any position of
  -- the switch.
  unfoldable pub state_after : Bool → List Update → TelegramState
  state_after on [] = record { pending = []; consumed = []; auto_trading = on }
  state_after on (u ∷ us) = (handle_telegram_command hash roles (state_after on us) u).state

  -- The token comes from an allowed message that asked for its action.
  unfoldable pub MadeBy : Update → ConfirmationToken → Type 0
  MadeBy u token =
      IsAllowed u
      × (command_of u ≡ text "/breaker_reset")
      × (create_confirmation_token hash u.user_id (text "breaker_reset") u.now u.iso u.random
          ≡ some token)

  unfoldable pub MadeIn : List Update → ConfirmationToken → Type 0
  unfolding MadeBy
  MadeIn [] token = ⊥
  MadeIn (u ∷ us) token = MadeBy u token ⊎ MadeIn us token

  -- A token of another action, or one that some message asked for.
  unfoldable pub IsSound : List Update → ConfirmationToken → Type 0
  IsSound us token = (text_eq token.action (text "breaker_reset") ≡ false) ⊎ MadeIn us token

  unfoldable pub AllSound : List Update → List (Text × ConfirmationToken) → Type 0
  AllSound us [] = Unit
  AllSound us ((k, token) ∷ pending) = IsSound us token × AllSound us pending

  pub IsSound-later :
      (u : Update) (us : List Update) (token : ConfirmationToken)
      → IsSound us token
      → IsSound (u ∷ us) token
  unfolding IsSound MadeIn
  IsSound-later u us token (inl other) = inl other
  IsSound-later u us token (inr made) = inr (inr made)

  pub AllSound-later :
      (u : Update) (us : List Update) (pending : List (Text × ConfirmationToken))
      → AllSound us pending
      → AllSound (u ∷ us) pending
  unfolding AllSound
  AllSound-later u us [] all = tt
  AllSound-later u us ((k, token) ∷ pending) (h, all) =
      (IsSound-later u us token h, AllSound-later u us pending all)

  pub AllSound-store :
      (us : List Update) (key : Text) (token : ConfirmationToken)
      (pending : List (Text × ConfirmationToken))
      → IsSound us token
      → AllSound us pending
      → AllSound us (store key token pending)
  unfolding AllSound store
  AllSound-store us key token [] h all = (h, tt)
  AllSound-store us key token ((k, other) ∷ pending) h (g, all) =
      elim (Bool-cases (text_eq k key)) [
        | inl same ↦ rw same (h, all)
        | inr else_key ↦ rw else_key (g, AllSound-store us key token pending h all)
      ]

  pub AllSound-keep :
      (us : List Update) (p : Text × ConfirmationToken → Bool)
      (pending : List (Text × ConfirmationToken))
      → AllSound us pending
      → AllSound us (keep p pending)
  unfolding AllSound
  AllSound-keep us p [] all = tt
  AllSound-keep us p ((k, token) ∷ pending) (h, all) = elim (Bool-cases (p (k, token))) [
    | inl kept ↦ rw kept (h, AllSound-keep us p pending all)
    | inr gone ↦ rw gone (AllSound-keep us p pending all)
  ]

  pub AllSound-lookup :
      (us : List Update) (key : Text) (pending : List (Text × ConfirmationToken))
      (token : ConfirmationToken)
      → AllSound us pending
      → lookup key pending ≡ some token
      → IsSound us token
  unfolding AllSound lookup
  AllSound-lookup us key [] token all h = cc
  AllSound-lookup us key ((k, other) ∷ pending) token (g, all) h =
      elim (Bool-cases (text_eq k key)) [
        | inl same ↦ subst (IsSound us) (some_injective other token (rw same at h)) g
        | inr else_key ↦ AllSound-lookup us key pending token all (rw else_key at h)
      ]

  pub action_created :
      (user action : Text) (now : Number) (iso random : Text) (token : ConfirmationToken)
      → create_confirmation_token hash user action now iso random ≡ some token
      → (token.action ≡ action)
        × (token.user_id ≡ user)
        × (iso_time (add now (num confirmation_ttl_ms)) ≡ some token.expires_at)
  unfolding create_confirmation_token token_until
  action_created user action now iso random token h = (ground arith, ground arith, ground arith)

  pub close_all_other : text_eq (text "close_all") (text "breaker_reset") ≡ false
  unfolding text_eq text
  close_all_other = refl

  pub close_all-IsSound :
      (u : Update) (us : List Update) (token : ConfirmationToken)
      → create_confirmation_token hash u.user_id (text "close_all") u.now u.iso u.random
        ≡ some token
      → IsSound (u ∷ us) token
  unfolding IsSound
  close_all-IsSound u us token made = inl (
      rw ((action_created u.user_id (text "close_all") u.now u.iso u.random token made).0)
        close_all_other)

  pub reset-IsSound :
      (u : Update) (us : List Update) (token : ConfirmationToken)
      → IsAllowed u
      → command_of u ≡ text "/breaker_reset"
      → create_confirmation_token hash u.user_id (text "breaker_reset") u.now u.iso u.random
        ≡ some token
      → IsSound (u ∷ us) token
  unfolding IsSound MadeIn MadeBy
  reset-IsSound u us token permitted command made = inr (inl (permitted, command, made))
