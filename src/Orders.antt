-- ===== src/Orders.antt =====
-- src/server.ts, `placeAlpacaOrder` and `cancelAlpacaOrder` with their helpers. The network is a
-- parameter; every order that is posted is recorded.
use quantpaca.Base.{
  Bool, true, false, not, ◌&&◌, ◌||◌, List, [], ◌∷◌, ◌++◌, Option, none, some, if◌then◌else◌,
  or_else, is_some,
}
use quantpaca.Js.Number.{Number, num, eq}
use quantpaca.Js.Text.{Text, text, to_lower, contains}
use quantpaca.Js.Value.{Value}
use quantpaca.Trading.Types.{
  BrokerConfig, ExitPlan, Side, buy, sell, Message, bracket_not_used, bracket_rejected,
  plain_retry_failed, plain_retry_succeeded,
}
use quantpaca.Trading.Pipeline.{BrokerOrderResponse, BrokerOutcome, returned, threw, is_live}
use quantpaca.Brackets.{
  BracketLegs, BracketLegsResult, legs_ok, legs_refused, build_bracket_legs, bracket_time_in_force,
  plain_time_in_force,
}
use quantpaca.Poller.Cycle.{CancelResult}
pub mod Posts

unfoldable pub is_duplicate_client_order_id_error : Number → Text → Bool
is_duplicate_client_order_id_error status body =
    let lower = to_lower body in
    (eq status (num 422) || eq status (num 409))
    && (contains lower (text "client_order_id")
        && (contains lower (text "unique")
            || (contains lower (text "already")
                || (contains lower (text "duplicate") || contains lower (text "exists")))))

unfoldable pub is_bracket_order_rejection : Number → Text → Bool
is_bracket_order_rejection status body =
    let lower = to_lower body in
    eq status (num 422) && (contains lower (text "bracket") || contains lower (text "order_class"))

-- The body of POST /orders; the type is a market order.
pub record OrderPost : Type 0 where
  pub symbol : Text
  pub qty : Text
  pub side : Side
  pub client_order_id : Text
  pub time_in_force : Text
  -- The texts of the take-profit limit price and the stop price.
  pub bracket : Option (Text × Text)

-- What a request for an order comes to: a rejection of the request or of its body's text, a
-- response that is not ok with its code and text, or an order.
pub data OrderReply : Type 0 where
  reply_threw : Option Text → OrderReply
  reply_refused : Number → Text → OrderReply
  reply_order : BrokerOrderResponse → OrderReply

-- What the placement has done.
pub record Placement : Type 0 where
  pub outcome : BrokerOutcome
  pub posts : List OrderPost
  pub notes : List Message

pub record BracketContext : Type 0 where
  pub entry_estimate : Number
  pub exit_plan : Option ExitPlan

-- `fetchExistingAlpacaOrderByClientOrderId`; a body that is falsy is `none`.
pub data LookupReply : Type 0 where
  lookup_threw lookup_not_ok : LookupReply
  lookup_body : Option BrokerOrderResponse → LookupReply

unfoldable pub fetch_existing_order : LookupReply → Option BrokerOrderResponse
fetch_existing_order lookup_threw = none
fetch_existing_order lookup_not_ok = none
fetch_existing_order (lookup_body order) = order

price_value : Option Number → Value
price_value none = Value.undefined
price_value (some n) = Value.number n

legs_or_note : Text → BracketLegsResult → Option BracketLegs × List Message
legs_or_note symbol (legs_ok legs) = (some legs, [])
legs_or_note symbol (legs_refused reason) = (none, bracket_not_used symbol reason ∷ [])

legs_for_plan : Text → Number → Option ExitPlan → Option BracketLegs × List Message
unfolding legs_or_note price_value
legs_for_plan symbol entry none = (none, [])
legs_for_plan symbol entry (some plan) = legs_or_note symbol (
    build_bracket_legs buy (Value.number entry) (Value.number plan.initial_stop_loss_price)
      (price_value plan.take_profit_price))

-- The legs of a buy with a plan, or the note that there are none.
unfoldable pub bracket_legs_for :
    Text → Side → Option BracketContext → Option BracketLegs × List Message
unfolding legs_for_plan
bracket_legs_for symbol sell context = (none, [])
bracket_legs_for symbol buy none = (none, [])
bracket_legs_for symbol buy (some context) =
    legs_for_plan symbol context.entry_estimate context.exit_plan

module _ (show_number : Number → Text) where
  dry_legs : Text → Option BracketLegs → Option (List (Option Text))
  dry_legs id none = none
  dry_legs id (some legs) = some (some (id ++ text "-leg-tp") ∷ some (id ++ text "-leg-sl") ∷ [])

  -- The answer without a broker.
  unfoldable pub dry_run : Number → Option BracketLegs → BrokerOrderResponse
  unfolding dry_legs
  dry_run now legs =
      let id = text "dry-run-" ++ show_number now in
      record { id = some id; status = some (text "accepted"); legs = dry_legs id legs }

  post_bracket : Option BracketLegs → Option (Text × Text)
  post_bracket none = none
  post_bracket (some legs) =
      some (show_number legs.take_profit_limit_price, show_number legs.stop_loss_stop_price)

  -- The body that `submit` posts.
  unfoldable pub order_post : Text → Number → Side → Text → Option BracketLegs → OrderPost
  unfolding post_bracket
  order_post symbol qty side id legs = record {
    symbol = symbol;
    qty = show_number qty;
    side = side;
    client_order_id = id;
    time_in_force = if is_some legs then bracket_time_in_force else plain_time_in_force;
    bracket = post_bracket legs;
  }

abbrev rejected_with : Text → BrokerOutcome
rejected_with body = threw (some (text "Alpaca order rejected: " ++ body))

existing_or : Option BrokerOrderResponse → BrokerOutcome → BrokerOutcome
existing_or none otherwise = otherwise
existing_or (some order) otherwise = returned order

-- A refusal that names a duplicate id is resolved to the order that has it.
unfoldable pub resolve_refusal : (Text → LookupReply) → Text → Number → Text → BrokerOutcome
unfolding existing_or fetch_existing_order
resolve_refusal find id status body =
    if is_duplicate_client_order_id_error status body
    then existing_or (fetch_existing_order (find id)) (rejected_with body)
    else rejected_with body

-- After the plain order that follows a rejected bracket.
unfoldable pub after_retry :
    (Text → LookupReply) → Text → Text → OrderReply → BrokerOutcome × List Message
after_retry find symbol id (reply_threw message) = (threw message, [])
after_retry find symbol id (reply_refused status body) =
    (resolve_refusal find id status body, plain_retry_failed symbol status body id ∷ [])
after_retry find symbol id (reply_order order) =
    (returned order, plain_retry_succeeded symbol id order.id ∷ [])

module _ (post : OrderPost → OrderReply) (find : Text → LookupReply)
    (show_number : Number → Text) where
  retry_plain : Text → Number → Side → Text → Number → Text → Placement → Placement
  unfolding after_retry order_post
  retry_plain symbol qty side id status body placed =
      let retry_id = id ++ text "-p" in
      let retry = order_post show_number symbol qty side retry_id none in
      let (outcome, notes) = after_retry find symbol retry_id (post retry) in
      record {
        outcome = outcome;
        posts = placed.posts ++ (retry ∷ []);
        notes = placed.notes ++ (bracket_rejected symbol status body id retry_id ∷ notes);
      }

  -- After the first order was posted.
  unfoldable pub after_post :
      Text → Number → Side → Text → Bool → OrderReply → Placement → Placement
  unfolding retry_plain
  after_post symbol qty side id bracketed (reply_threw message) placed = record placed {
    outcome = threw message;
  }
  after_post symbol qty side id bracketed (reply_order order) placed = record placed {
    outcome = returned order;
  }
  after_post symbol qty side id bracketed (reply_refused status body) placed =
      if bracketed && is_bracket_order_rejection status body
      then retry_plain symbol qty side id status body placed
      else record placed { outcome = resolve_refusal find id status body }

  unfoldable pub place_alpaca_order :
      BrokerConfig → Number → Text → Number → Side → Text → Option BracketContext → Placement
  unfolding after_post order_post bracket_legs_for dry_run
  place_alpaca_order config now symbol qty side id context =
      let (legs, notes) = bracket_legs_for symbol side context in
      if not config.configured
      then record { outcome = returned (dry_run show_number now legs); posts = []; notes = notes }
      else if is_live config.trading_mode && not config.live_trading_enabled
      then record {
        outcome = threw (some (text "Live trading is blocked unless LIVE_TRADING_ENABLED=true."));
        posts = [];
        notes = notes;
      }
      else let first = order_post show_number symbol qty side id legs in
        after_post symbol qty side id (is_some legs) (post first)
          (record { outcome = threw none; posts = first ∷ []; notes = notes })

-- What a request to cancel comes to: a rejection, or a response's `ok` and code.
pub data CancelReply : Type 0 where
  cancel_threw : CancelReply
  cancel_response : Bool → Number → CancelReply

read_cancel : CancelReply → CancelResult
read_cancel cancel_threw = record { ok = false; status = none }
read_cancel (cancel_response ok status) = record {
  ok = ok || eq status (num 404);
  status = some status;
}

unfoldable pub cancel_alpaca_order : (Text → CancelReply) → BrokerConfig → Text → CancelResult
unfolding read_cancel
cancel_alpaca_order delete config id =
    if not config.configured then record { ok = true; status = none } else read_cancel (delete id)
