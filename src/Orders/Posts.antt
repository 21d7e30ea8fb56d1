-- ===== src/Orders/Posts.antt =====
-- Which orders src/server.ts posts for one trade.
use quantpaca.Base.{
  ◌≡◌, ◌≢◌, ◌↔◌, refl, ◌⊎◌, inl, inr, true, List, [], ◌∷◌, ◌++◌, Option, none, some, arith, is_some,
}
use quantpaca.Js.Number.{Number}
use quantpaca.Js.Text.{Text, text}
use quantpaca.Trading.Types.{BrokerConfig, Side, sell, paper}
use quantpaca.Trading.Pipeline.{threw}
use quantpaca.Brackets.{BracketLegs}
use quantpaca.Orders.{
  OrderPost, OrderReply, reply_threw, reply_refused, reply_order, Placement, post_bracket,
  LookupReply, BracketContext, is_bracket_order_rejection, bracket_legs_for, order_post,
  retry_plain, after_post, place_alpaca_order,
}

-- The broker is there, and the mode lets orders through.
abbrev pub IsOpen : BrokerConfig → Type 0
IsOpen config =
    (config.configured ≡ true)
    × ((config.trading_mode ≡ paper) ⊎ (config.live_trading_enabled ≡ true))

-- The orders posted for one trade: one, or a bracket that the broker refused as a bracket and then
-- the same order without it, under an id of its own.
abbrev pub PostsOnce : (OrderPost → OrderReply) → OrderPost → List OrderPost → Type 0
PostsOnce post first posts =
    (posts ≡ first ∷ [])
    ⊎ ((is_some first.bracket ≡ true)
        × ((status : Number) × (body : Text) × (post first ≡ reply_refused status body)
            × (is_bracket_order_rejection status body ≡ true))
        × (posts
            ≡ first
              ∷ record first {
                client_order_id = first.client_order_id ++ text "-p";
                time_in_force = text "day";
                bracket = none;
              }
              ∷ []))

module _ (post : OrderPost → OrderReply) (find : Text → LookupReply)
    (show_number : Number → Text) where
  module _ (symbol : Text) (qty : Number) (side : Side) (id : Text) where
    abbrev first_of : Option BracketLegs → OrderPost
    first_of legs = order_post show_number symbol qty side id legs

    abbrev posts_of : Option BracketLegs → OrderReply → Placement → List OrderPost
    posts_of legs reply placed =
        (after_post post find show_number symbol qty side id (is_some legs) reply placed).posts

    retried :
        (legs : BracketLegs) (status : Number) (body : Text) (placed : Placement)
        → post (first_of (some legs)) ≡ reply_refused status body
        → placed.posts ≡ first_of (some legs) ∷ []
        → is_bracket_order_rejection status body ≡ true
        → PostsOnce post
            (first_of (some legs))
            (retry_plain post find show_number symbol qty side id status body placed).posts
    unfolding retry_plain order_post post_bracket
    retried legs status body placed sent one named =
        inr (refl, (status, body, sent, named), rw one refl)

    after_post-PostsOnce :
        (legs : Option BracketLegs) (reply : OrderReply) (placed : Placement)
        → post (first_of legs) ≡ reply
        → placed.posts ≡ first_of legs ∷ []
        → PostsOnce post (first_of legs) (posts_of legs reply placed)
          × ((legs ≡ none) → posts_of legs reply placed ≡ first_of legs ∷ [])
    unfolding after_post
    after_post-PostsOnce legs (reply_threw message) placed sent one = (inl one, λ h. one)
    after_post-PostsOnce legs (reply_order order) placed sent one = (inl one, λ h. one)
    after_post-PostsOnce none (reply_refused status body) placed sent one = (inl one, λ h. one)
    after_post-PostsOnce (some legs) (reply_refused status body) placed sent one =
        ground (arith, one, retried legs status body placed sent one)

    sell_legs :
        (context : Option BracketContext)
        → side ≡ sell
        → (bracket_legs_for symbol side context).0 ≡ none
    unfolding bracket_legs_for
    sell_legs context h = rw h refl

  -- Nothing is posted unless a broker is configured and the mode is open. Then the order is posted
  -- once; a second time only without its bracket, after the broker refused the bracket itself. A
  -- sell is posted without a bracket.
  pub place_alpaca_order-PostsOnce :
      (config : BrokerConfig) (now : Number) (symbol : Text) (qty : Number) (side : Side)
      (id : Text) (context : Option BracketContext)
      → let placed =
          place_alpaca_order post find show_number config now symbol qty side id context in
        let first =
          order_post show_number symbol qty side id (bracket_legs_for symbol side context).0 in
        ((¬ IsOpen config) × (placed.posts ≡ []))
        ⊎ (IsOpen config
            × PostsOnce post first placed.posts
            × ((side ≡ sell) → placed.posts ≡ order_post show_number symbol qty side id none ∷ []))
  unfolding place_alpaca_order
  place_alpaca_order-PostsOnce config now symbol qty side id context =
      let legs = (bracket_legs_for symbol side context).0 in
      let first = order_post show_number symbol qty side id legs in
      let start : Placement = record {
        outcome = threw none;
        posts = first ∷ [];
        notes = (bracket_legs_for symbol side context).1;
      } in
      ground (
        arith,
        after_post-PostsOnce symbol qty side id legs (post first) start refl refl,
        sell_legs symbol qty side id context,
      )

PostsOnce-some :
    (post : OrderPost → OrderReply) (first : OrderPost) (posts : List OrderPost)
    → PostsOnce post first posts
    → posts ≢ []
PostsOnce-some post first posts (inl once) h = cc
PostsOnce-some post first posts (inr (bracketed, refused, twice)) h = cc

-- An order is posted exactly if a broker is configured and the mode is open.
pub place_alpaca_order-IsOpen :
    (post : OrderPost → OrderReply) (find : Text → LookupReply) (show_number : Number → Text)
    (config : BrokerConfig) (now : Number) (symbol : Text) (qty : Number) (side : Side) (id : Text)
    (context : Option BracketContext)
    → ((place_alpaca_order post find show_number config now symbol qty side id context).posts ≢ [])
      ↔ IsOpen config
place_alpaca_order-IsOpen post find show_number config now symbol qty side id context =
    elim (place_alpaca_order-PostsOnce post find show_number config now symbol qty side id
      context) [
        | inl (shut, none_sent) ↦ (λ h. absurd (h none_sent), λ h. absurd (shut h))
        | inr (ready, once, sold) ↦ (λ h. ready, λ h. PostsOnce-some post _ _ once)
      ]
