-- ===== src/Telegram/Commands/Confirmed.antt =====
-- Which messages execute a breaker reset.
use quantpaca.Base.{
  ◌≡◌, refl, sym, ◌∙◌, inl, inr, Bool, true, false, ◌&&◌, List, [], ◌∷◌, Option, none, some, arith,
  Bool-cases, Option-cases,
}
use quantpaca.Js.Number.{Number, lt}
use quantpaca.Js.Text.{Text, text, text_eq, filled, trim, words, text_eq_sound}
use quantpaca.Js.Object.{lookup}
use quantpaca.Telegram.{
  TelegramRole, Authorization, allowed, unauthorized_user, insufficient_role,
  authorize_telegram_command, ConfirmationToken, create_confirmation_token, Consumption, accepted,
  replayed, wrong_user, wrong_action, expired, consume_confirmation_token,
}
use quantpaca.Telegram.Commands.{
  Update, TelegramState, handle_telegram_command, command_of, redeem, confirm_key, ask, obey,
  respond, handled, ignored, second_of, switch,
}
use quantpaca.Telegram.Commands.Pending.{
  IsAllowed, AskedIn, state_after, MadeBy, MadeIn, IsSound, AllSound, AllSound-later,
  AllSound-store, AllSound-keep, AllSound-lookup, action_created, close_all-IsSound, reset-IsSound,
}

module _ (hash : Text → Text) (roles : List (Text × TelegramRole)) where
  ask_sound :
      (us : List Update) (state : TelegramState) (u : Update) (action : Text)
      → ((token : ConfirmationToken)
          → create_confirmation_token hash u.user_id action u.now u.iso u.random ≡ some token
          → IsSound hash roles (u ∷ us) token)
      → AllSound hash roles us state.pending
      → AllSound hash roles (u ∷ us) (ask hash state u action).state.pending
  unfolding ask handled ignored
  ask_sound us state u action sound all =
      elim (Option-cases (create_confirmation_token hash u.user_id action u.now u.iso u.random)) [
        | inl thrown ↦ rw (thrown, ask) (AllSound-later hash roles u us state.pending all)
        | inr (token, made) ↦
            rw (made, ask)
              (AllSound-store hash roles (u ∷ us) token.token token state.pending (sound token made)
                (AllSound-later hash roles u us state.pending all))
      ]

  redeem_sound :
      (us : List Update) (state : TelegramState) (u : Update) (key : Text)
      (token : ConfirmationToken) (outcome : Consumption) (consumed : List Text)
      → AllSound hash roles us state.pending
      → AllSound hash roles us (redeem state u key token (outcome, consumed)).state.pending
  unfolding redeem handled
  redeem_sound us state u key token accepted consumed all =
      elim (Bool-cases (text_eq token.action (text "breaker_reset"))) [
        | inl reset ↦ rw reset (AllSound-keep hash roles us _ state.pending all)
        | inr other ↦ rw other (AllSound-keep hash roles us _ state.pending all)
      ]
  redeem_sound us state u key token replayed consumed all = all
  redeem_sound us state u key token wrong_user consumed all = all
  redeem_sound us state u key token wrong_action consumed all = all
  redeem_sound us state u key token expired consumed all = all

  confirm_sound :
      (us : List Update) (state : TelegramState) (u : Update) (key : Option Text)
      → AllSound hash roles us state.pending
      → AllSound hash roles us (confirm_key state u key).state.pending
  unfolding confirm_key handled
  confirm_sound us state u none all = all
  confirm_sound us state u (some key) all = elim (Option-cases (lookup key state.pending)) [
    | inl unknown ↦ rw (unknown, confirm_key) all
    | inr (token, found_token) ↦
        let outcome =
          consume_confirmation_token state.consumed token u.user_id token.action u.now in
        rw (found_token, confirm_key) (redeem_sound us state u key token outcome.0 outcome.1 all)
  ]

  switch_lem :
      (state : TelegramState) (command : Text)
      → ((switch state command).state.pending ≡ state.pending)
        × ((switch state command).breaker_reset ≡ false)
  unfolding switch handled
  switch_lem state command = (ground arith, ground arith)

  obey_sound :
      (us : List Update) (state : TelegramState) (u : Update)
      → IsAllowed hash roles u
      → AllSound hash roles us state.pending
      → AllSound hash roles (u ∷ us) (obey hash state u (command_of u)).state.pending
  unfolding obey
  obey_sound us state u permitted all =
      let later = AllSound-later hash roles u us state.pending all in
      let command = command_of u in
      elim (Bool-cases (text_eq command (text "/confirm"))) [
        | inl e ↦ rw (e, obey) (confirm_sound (u ∷ us) state u (second_of (words u.text)) later)
        | inr a ↦ elim (Bool-cases (text_eq command (text "/close_all"))) [
          | inl e ↦
              rw (a, e, obey)
                (ask_sound us state u (text "close_all")
                  (λ token made. close_all-IsSound hash roles u us token made) all)
          | inr b ↦ elim (Bool-cases (text_eq command (text "/breaker_reset"))) [
            | inl e ↦
                rw (a, b, e, obey)
                  (ask_sound us state u (text "breaker_reset")
                    (λ token made.
                      reset-IsSound hash roles u us token permitted
                        (text_eq_sound command (text "/breaker_reset") e) made)
                    all)
            | inr c ↦ rw (a, b, c, obey) (rw ((switch_lem state command).0) later)
          ]
        ]
      ]

  sound_made :
      (us : List Update) (token : ConfirmationToken)
      → text_eq token.action (text "breaker_reset") ≡ true
      → IsSound hash roles us token
      → MadeIn hash roles us token
  unfolding IsSound
  sound_made us token h (inl other) = cc
  sound_made us token h (inr made) = made

  -- What a reset by a confirmation needs: a sound token of the same user that has not expired.
  pub record Redeems (us : List Update) (u : Update) (token : ConfirmationToken) : Type 0 where
    made : MadeIn hash roles us token
    user : token.user_id ≡ u.user_id
    in_time : lt token.expires_at u.now ≡ false

  redeem_reset :
      (state : TelegramState) (u : Update) (key : Text) (token : ConfirmationToken)
      (outcome : Consumption) (consumed : List Text)
      → (redeem state u key token (outcome, consumed)).breaker_reset ≡ true
      → (outcome ≡ accepted) × (text_eq token.action (text "breaker_reset") ≡ true)
  unfolding redeem handled
  redeem_reset state u key token accepted consumed h = (refl, ground arith)
  redeem_reset state u key token replayed consumed h = cc
  redeem_reset state u key token wrong_user consumed h = cc
  redeem_reset state u key token wrong_action consumed h = cc
  redeem_reset state u key token expired consumed h = cc

  accepted_needs :
      (consumed : List Text) (token : ConfirmationToken) (user : Text) (now : Number)
      → (consume_confirmation_token consumed token user token.action now).0 ≡ accepted
      → (token.user_id ≡ user) × (lt token.expires_at now ≡ false)
  unfolding consume_confirmation_token
  accepted_needs consumed token user now h =
      (ground (arith, text_eq_sound token.user_id user), ground arith)

  confirm_reset :
      (us : List Update) (state : TelegramState) (u : Update) (key : Option Text)
      → AllSound hash roles us state.pending
      → (confirm_key state u key).breaker_reset ≡ true
      → (token : ConfirmationToken) × Redeems us u token
  unfolding confirm_key handled IsSound
  confirm_reset us state u none all h = cc
  confirm_reset us state u (some key) all h = elim (Option-cases (lookup key state.pending)) [
    | inl unknown ↦ cc (rw (unknown, confirm_key) at h)
    | inr (token, present) ↦
        let outcome =
          consume_confirmation_token state.consumed token u.user_id token.action u.now in
        let redeemed =
          redeem_reset state u key token outcome.0 outcome.1 (rw (present, confirm_key) at h) in
        let needs = accepted_needs state.consumed token u.user_id u.now redeemed.0 in
        (
          token,
          record {
            made =
                sound_made us token redeemed.1
                  (AllSound-lookup hash roles us key state.pending token all present);
            user = needs.0;
            in_time = needs.1;
          },
        )
  ]

  ask_never_resets :
      (state : TelegramState) (u : Update) (action : Text)
      → (ask hash state u action).breaker_reset ≡ false
  unfolding ask handled ignored
  ask_never_resets state u action = ground arith

  obey_reset :
      (us : List Update) (state : TelegramState) (u : Update)
      → AllSound hash roles us state.pending
      → (obey hash state u (command_of u)).breaker_reset ≡ true
      → (command_of u ≡ text "/confirm") × ((token : ConfirmationToken) × Redeems us u token)
  unfolding obey
  obey_reset us state u all h = elim (Bool-cases (text_eq (command_of u) (text "/confirm"))) [
    | inl e ↦ (
      text_eq_sound (command_of u) (text "/confirm") e,
      confirm_reset us state u (second_of (words u.text)) all (rw (e, obey) at h),
    )
    | inr e ↦ absurd (
        ground (
          arith,
          e,
          h,
          ask_never_resets state u (text "close_all"),
          ask_never_resets state u (text "breaker_reset"),
          (switch_lem state (command_of u)).1,
        ))
  ]

  respond_reset :
      (us : List Update) (state : TelegramState) (u : Update) (answer : Authorization)
      → AllSound hash roles us state.pending
      → (respond hash state u answer).breaker_reset ≡ true
      → (answer ≡ allowed)
        × (command_of u ≡ text "/confirm")
        × ((token : ConfirmationToken) × Redeems us u token)
  unfolding respond handled
  respond_reset us state u allowed all h =
      let found_token = obey_reset us state u all h in (refl, found_token.0, found_token.1)
  respond_reset us state u unauthorized_user all h = cc
  respond_reset us state u insufficient_role all h = cc

  respond_sound :
      (us : List Update) (state : TelegramState) (u : Update) (answer : Authorization)
      → authorize_telegram_command u.user_id (command_of u) roles ≡ answer
      → AllSound hash roles us state.pending
      → AllSound hash roles (u ∷ us) (respond hash state u answer).state.pending
  unfolding respond handled
  respond_sound us state u allowed permitted all = obey_sound us state u permitted all
  respond_sound us state u unauthorized_user denied all =
      AllSound-later hash roles u us state.pending all
  respond_sound us state u insufficient_role denied all =
      AllSound-later hash roles u us state.pending all

  handle_sound :
      (us : List Update) (state : TelegramState) (u : Update)
      → AllSound hash roles us state.pending
      → AllSound hash roles (u ∷ us) (handle_telegram_command hash roles state u).state.pending
  unfolding handle_telegram_command ignored
  handle_sound us state u all =
      elim (Bool-cases (filled (trim u.text) && (filled u.chat_id && filled u.user_id))) [
        | inl complete ↦
            rw (complete, handle_telegram_command)
              (respond_sound us state u (authorize_telegram_command u.user_id (command_of u) roles)
                refl all)
        | inr partial ↦
            rw (partial, handle_telegram_command) (AllSound-later hash roles u us state.pending all)
      ]

  handle_reset :
      (us : List Update) (state : TelegramState) (u : Update)
      → AllSound hash roles us state.pending
      → (handle_telegram_command hash roles state u).breaker_reset ≡ true
      → IsAllowed hash roles u
        × (command_of u ≡ text "/confirm")
        × ((token : ConfirmationToken) × Redeems us u token)
  unfolding handle_telegram_command ignored
  handle_reset us state u all h =
      elim (Bool-cases (filled (trim u.text) && (filled u.chat_id && filled u.user_id))) [
        | inl complete ↦
            respond_reset us state u (authorize_telegram_command u.user_id (command_of u) roles) all
              (rw (complete, handle_telegram_command) at h)
        | inr partial ↦ cc (rw (partial, handle_telegram_command) at h)
      ]

  -- In every state that messages lead to, the pending tokens are sound.
  state_after-Sound :
      (on : Bool) (us : List Update) → AllSound hash roles us (state_after hash roles on us).pending
  unfolding state_after AllSound
  state_after-Sound on [] = tt
  state_after-Sound on (u ∷ us) =
      handle_sound us (state_after hash roles on us) u (state_after-Sound on us)

  asked_of_made :
      (us : List Update) (u : Update) (token : ConfirmationToken)
      → MadeIn hash roles us token
      → token.user_id ≡ u.user_id
      → lt token.expires_at u.now ≡ false
      → AskedIn hash roles us u
  unfolding MadeIn MadeBy
  asked_of_made [] u token made user in_time = made
  asked_of_made (v ∷ us) u token (inr made) user in_time =
      inr (asked_of_made us u token made user in_time)
  asked_of_made (v ∷ us) u token (inl (permitted, command, made)) user in_time =
      let created =
        action_created hash roles v.user_id (text "breaker_reset") v.now v.iso v.random token
          made in
      inl (record {
        permitted = permitted;
        command = command;
        same_user = sym created.1 ∙ user;
        until = token.expires_at;
        term = created.2;
        in_time = in_time;
      })

  -- After any messages, a message executes a breaker reset only if it is an allowed /confirm and an
  -- earlier message of the same user was an allowed /breaker_reset whose term covers it.
  pub reset_needs_request :
      (on : Bool) (us : List Update) (u : Update)
      → (handle_telegram_command hash roles (state_after hash roles on us) u).breaker_reset ≡ true
      → IsAllowed hash roles u × (command_of u ≡ text "/confirm") × AskedIn hash roles us u
  reset_needs_request on us u h =
      let (permitted, command, (token, redeems)) =
        handle_reset us (state_after hash roles on us) u (state_after-Sound on us) h in
      (permitted, command, asked_of_made us u token redeems.made redeems.user redeems.in_time)
