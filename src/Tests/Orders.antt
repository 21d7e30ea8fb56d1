-- ===== src/Tests/Orders.antt =====
-- The placement of orders and the tradability guard at concrete inputs.
use quantpaca.Base.{refl, ◌≡◌, ◌⊎◌, true, false, [], ◌∷◌, some, none}
use quantpaca.Js.Number.{num, lt, le}
use quantpaca.Js.Text.{Text, text, text_eq}
use quantpaca.Js.Object.{lookup, store}
use quantpaca.Trading.Types.{buy, sell}
use quantpaca.Orders.{
  OrderPost, OrderReply, reply_refused, reply_order, LookupReply, lookup_threw, BracketContext,
  bracket_legs_for, order_post, place_alpaca_order,
}
use quantpaca.Orders.Posts.{IsOpen, PostsOnce, place_alpaca_order-PostsOnce}
use quantpaca.Tradability.{AssetResponse, asset_not_ok, PositiveCache}
use quantpaca.Guards.{evaluate_crash_loop_on_boot, create_rate_limiter_state, check_rate_limit}
use quantpaca.Js.Arith.{sub}
use quantpaca.Tests.Trading.{plan, show}
use quantpaca.Tests.Risk.{paper_broker}

-- A broker that refuses brackets.
abbrev pub no_brackets : OrderPost → OrderReply
no_brackets order = elim order.bracket [
  | none ↦ reply_order (record { id = some (text "o-1"); status = some (text "new"); legs = none })
  | some legs ↦ reply_refused (num 422) (text "invalid order_class")
]

abbrev pub lost : Text → LookupReply
lost id = lookup_threw

abbrev protected_entry : BracketContext
protected_entry = record { entry_estimate = num 100; exit_plan = some plan }

place_alpaca_order-PostsOnce_example :
    let context = some protected_entry in
    let placed =
      place_alpaca_order no_brackets lost show paper_broker
        (num 0)
        (text "NVDA")
        (num 3)
        buy
        (text "qp-1")
        context in
    let first =
      order_post show
        (text "NVDA")
        (num 3)
        buy
        (text "qp-1")
        (bracket_legs_for (text "NVDA") buy context).0 in
    ((¬ IsOpen paper_broker) × (placed.posts ≡ []))
    ⊎ (IsOpen paper_broker
        × PostsOnce no_brackets first placed.posts
        × ((buy ≡ sell)
            → placed.posts ≡ order_post show (text "NVDA") (num 3) buy (text "qp-1") none ∷ []))
place_alpaca_order-PostsOnce_example =
    place_alpaca_order-PostsOnce no_brackets lost show paper_broker (num 0) (text "NVDA") (num 3)
      buy (text "qp-1") (some protected_entry)

abbrev halted : Text → AssetResponse
halted symbol = asset_not_ok (num 503)

abbrev known : PositiveCache
known = (text "NVDA", num 1000) ∷ []

-- The third boot within an hour is a crash loop.
crash_loop_found :
    (evaluate_crash_loop_on_boot (num 1000 ∷ num 2000 ∷ []) (num 3000) false).crash_loop_detected
    ≡ true
unfolding evaluate_crash_loop_on_boot lt num sub
crash_loop_found = refl

-- The second request of a window with limit one is refused.
limited :
    (check_rate_limit
      (check_rate_limit create_rate_limiter_state (text "ip") (num 0) 1 (num 60000)).state
      (text "ip")
      (num 1)
      1
      (num 60000)).allowed
    ≡ false
unfolding check_rate_limit create_rate_limiter_state lookup store text text_eq le lt num sub
limited = refl
