-- ===== src/Liquidation/Legs.antt =====
-- When src/server.ts lets an automated sell go on past the bracket legs.
use quantpaca.Base.{
  ◌≡◌, refl, inl, inr, Bool, true, not, ◌&&◌, ◌||◌, List, [], ◌∷◌, Option, some, arith, every,
  is_some, Option-cases, Bool-cases, ◌++◌,
}
use quantpaca.Js.Number.{Number}
use quantpaca.Js.Text.{Text}
use quantpaca.Trading.State.{TradeState, filled, map_broker_status_to_trade_state}
use quantpaca.Trading.Types.{PipelineTrade}
use quantpaca.Poller.Targets.{leg_state, is_open_leg, is_terminal_trade_state}
use quantpaca.Poller.Fetch.{BrokerOrderPollResult}
use quantpaca.Poller.Legs.{apply_leg_poll_result, apply_leg_mapped}
use quantpaca.Poller.Cycle.{CancelResult}
use quantpaca.Liquidation.{
  EntryRecord, found_entry, CancelState, CancelRun, leg_canceled, leg_repolled, leave_protected,
  not_cancelable, repoll, cancel_leg, cancel_legs, cancel_found, cancel_bracket_legs_before_sell,
}

-- The state that a poll shows is terminal, and a fill comes with its quantity.
abbrev ends : TradeState → Option Number → Bool
ends filled quantity = is_some quantity
ends mapped quantity = is_terminal_trade_state mapped

module _ (cancel_order : Text → CancelResult) (fetch : Text → BrokerOrderPollResult) where
  -- Nothing of the leg is left at the broker: it is recorded as terminal, it was canceled, or it
  -- cannot be canceled and a poll shows that it has ended.
  abbrev pub is_clear : List (Text × TradeState) → Text → Bool
  is_clear states leg =
      not (is_open_leg (leg_state leg states))
      || ((cancel_order leg).ok
          || (not_cancelable (cancel_order leg).status
              && ((fetch leg).ok
                  && ends (map_broker_status_to_trade_state (fetch leg).status)
                      (fetch leg).filled_qty)))

mapped_ends :
    (trade : PipelineTrade) (leg : Text) (poll : BrokerOrderPollResult) (at : Number)
    (mapped : TradeState) (quantity : Option Number)
    → (apply_leg_mapped trade leg poll at mapped quantity).became_terminal ≡ ends mapped quantity
unfolding apply_leg_mapped is_terminal_trade_state
mapped_ends trade leg poll at mapped quantity = ground arith

module _ (cancel_order : Text → CancelResult) (fetch : Text → BrokerOrderPollResult) (now : Number)
    (symbol : Text) where
  -- The run clears the leg exactly if the test says so, and then the entry is still at hand.
  Clears : Bool → CancelRun → Type 0
  Clears b run = (run.ok ≡ b) × (run.ok ≡ true → is_some run.state.entry ≡ true)

  repoll-Clears :
      (leg : Text) (status : Option Number) (trade : PipelineTrade) (st : CancelState)
      → Clears
          ((fetch leg).ok
            && ends (map_broker_status_to_trade_state (fetch leg).status) (fetch leg).filled_qty)
          (repoll cancel_order fetch now symbol leg status (some trade) st)
  unfolding Clears repoll leg_repolled leave_protected apply_leg_poll_result
  repoll-Clears leg status trade st =
      let known =
        mapped_ends trade leg (fetch leg) now (map_broker_status_to_trade_state (fetch leg).status)
          (fetch leg).filled_qty in
      ground (arith, known)

  cancel_leg-Clears :
      (leg : Text) (st : CancelState)
      → is_some st.entry ≡ true
      → Clears
          ((cancel_order leg).ok
            || (not_cancelable (cancel_order leg).status
                && ((fetch leg).ok
                    && ends
                        (map_broker_status_to_trade_state (fetch leg).status)
                        (fetch leg).filled_qty)))
          (cancel_leg cancel_order fetch now symbol leg st)
  unfolding Clears cancel_leg leg_canceled leave_protected
  cancel_leg-Clears leg st present = elim (Option-cases st.entry) [
    | inl absent ↦ ground (arith, absent)
    | inr (trade, held) ↦ ground (
      arith,
      held,
      repoll-Clears leg (cancel_order leg).status trade
          (record st { deletes = st.deletes ++ (leg ∷ []) }),
    )
  ]

  cancel_legs-Clears :
      (states : List (Text × TradeState)) (legs : List Text) (st : CancelState)
      → is_some st.entry ≡ true
      → (cancel_legs cancel_order fetch now symbol states legs st).ok
        ≡ every (is_clear cancel_order fetch states) legs
  unfolding cancel_legs Clears
  cancel_legs-Clears states [] st present = refl
  cancel_legs-Clears states (leg ∷ legs) st present =
      let tried = cancel_leg-Clears leg st present in
      let skipped = cancel_legs-Clears states legs st present in
      elim (Bool-cases (cancel_leg cancel_order fetch now symbol leg st).ok) [
        | inl done ↦ ground (
          arith,
          tried.0,
          done,
          skipped,
          cancel_legs-Clears states legs (cancel_leg cancel_order fetch now symbol leg st).state
              (tried.1 done),
        )
        | inr failed ↦ ground (arith, tried.0, failed, skipped)
      ]

  -- Where the entry of a position is stored, a sell goes on past its bracket legs exactly if none of
  -- them is left at the broker.
  pub cancel_bracket_legs_lem :
      (found : EntryRecord)
      → is_some found.entry ≡ true
      → (cancel_bracket_legs_before_sell cancel_order fetch now symbol true (found_entry found)).ok
        ≡ every (is_clear cancel_order fetch found.leg_states) found.leg_order_ids
  unfolding cancel_bracket_legs_before_sell cancel_found
  cancel_bracket_legs_lem found present =
      cancel_legs-Clears found.leg_states found.leg_order_ids _ present
