-- ===== src/Sync/Automation/Buys.antt =====
-- The buys of `runSyncCycle` in src/server.ts.
use quantpaca.Base.{
  ℕ, suc, ◌≤◌, ◌≡◌, inl, inr, refl, Bool, true, false, not, ◌||◌, List, Option, none, some, arith,
  Bool-cases, leb,
}
use quantpaca.Js.Number.{Number, num, lt, le, is_finite}
use quantpaca.Js.Text.{Text}
use quantpaca.Trading.Types.{DoNotBuyEntry}
use quantpaca.Risk.Portfolio.{OpenOrder}
use quantpaca.Portfolio.{AlpacaAccount}
use quantpaca.Scheduler.{max_buys_per_cycle}
use quantpaca.Execution.Context.{number_of}
use quantpaca.Signals.{buy}
use quantpaca.Sync.Automation.{
  sized_buy, CycleSettings, Analysis, entry_for, capped_buy, buy_with_orders, buy_listed, buy_read,
  is_usable,
}
use quantpaca.Sync.Automation.Cleared.{Keeps}

below_cap : (n : ℕ) → leb max_buys_per_cycle n ≡ false → suc n ≤ max_buys_per_cycle
below_cap n h = ground (arith, h)

module _ (parse_int : Text → Number) (settings : CycleSettings) where
  -- What a buy has passed up to its sizing.
  pub record IsSizable (item : Analysis) (account : AlpacaAccount) (orders : List OpenOrder)
      : Type 0 where
    pub on : settings.auto_trading ≡ true
    pub priced : is_usable item.price ≡ true
    pub decided : item.decision ≡ buy
    pub read : item.portfolio ≡ some account
    pub valued : is_usable (number_of account.portfolio_value) ≡ true
    pub listed :
        (entries : List DoNotBuyEntry) × (item.do_not_buy ≡ some entries)
        × (entry_for item.symbol entries ≡ none)
    pub ordered : item.open_orders ≡ some orders
    pub finite_stop : is_finite settings.stop_loss_percent ≡ true
    pub positive_stop : le settings.stop_loss_percent (num 0) ≡ false

  capped_buy-Keeps :
      (item : Analysis) (account : AlpacaAccount) (orders : List OpenOrder) (buys : ℕ)
      → IsSizable item account orders
      → buys ≤ max_buys_per_cycle
      → Keeps parse_int settings item buys
          (capped_buy item (sized_buy settings item account orders).qty buys)
  unfolding capped_buy
  capped_buy-Keeps item account orders buys p h =
      elim (Bool-cases (lt (sized_buy settings item account orders).qty (num 1))) [
        | inl few ↦ rw few (tt, omega arith, h)
        | inr enough ↦ elim (Bool-cases (leb max_buys_per_cycle buys)) [
          | inl full ↦ rw (enough, full) (tt, omega arith, h)
          | inr room ↦
              rw (enough, room)
                (
                  (
                    p.on,
                    p.priced,
                    inl (record {
                      decided = p.decided;
                      account = account;
                      read = p.read;
                      valued = p.valued;
                      listed = p.listed;
                      orders = orders;
                      ordered = p.ordered;
                      finite_stop = p.finite_stop;
                      positive_stop = p.positive_stop;
                      at_least_one = enough;
                      request_of = refl;
                    }),
                  ),
                  omega arith,
                  below_cap buys room,
                )
        ]
      ]

  usable_stop : (b c : Bool) → (not b || c) ≡ false → (b ≡ true) × (c ≡ false)
  usable_stop b c h = ground arith

  buy_with_orders-Keeps :
      (item : Analysis) (account : AlpacaAccount) (buys : ℕ) (orders : Option (List OpenOrder))
      → item.open_orders ≡ orders
      → settings.auto_trading ≡ true
      → is_usable item.price ≡ true
      → item.decision ≡ buy
      → item.portfolio ≡ some account
      → is_usable (number_of account.portfolio_value) ≡ true
      → ((entries : List DoNotBuyEntry) × (item.do_not_buy ≡ some entries)
          × (entry_for item.symbol entries ≡ none))
      → buys ≤ max_buys_per_cycle
      → Keeps parse_int settings item buys (buy_with_orders settings item account buys orders)
  unfolding buy_with_orders
  buy_with_orders-Keeps item account buys none e on price decided read valued listed h =
      (tt, omega arith, h)
  buy_with_orders-Keeps item account buys (some orders) e on price decided read valued listed h =
      elim (Bool-cases
        (not (is_finite settings.stop_loss_percent) || le settings.stop_loss_percent (num 0))) [
          | inl unusable ↦ rw unusable (tt, omega arith, h)
          | inr usable ↦
              let (finite, positive) = usable_stop _ _ usable in
              rw usable (
                capped_buy-Keeps item account orders buys
                  (record {
                    on = on;
                    priced = price;
                    decided = decided;
                    read = read;
                    valued = valued;
                    listed = listed;
                    ordered = e;
                    finite_stop = finite;
                    positive_stop = positive;
                  })
                  h)
        ]

  buy_listed-Keeps :
      (item : Analysis) (account : AlpacaAccount) (buys : ℕ) (entries : List DoNotBuyEntry)
      (entry : Option DoNotBuyEntry)
      → entry_for item.symbol entries ≡ entry
      → settings.auto_trading ≡ true
      → is_usable item.price ≡ true
      → item.decision ≡ buy
      → item.portfolio ≡ some account
      → is_usable (number_of account.portfolio_value) ≡ true
      → item.do_not_buy ≡ some entries
      → buys ≤ max_buys_per_cycle
      → Keeps parse_int settings item buys (buy_listed settings item account buys entry)
  unfolding buy_listed
  buy_listed-Keeps item account buys entries (some entry) e on price decided seen valued read h =
      (tt, omega arith, h)
  buy_listed-Keeps item account buys entries none e on price decided seen valued read h =
      buy_with_orders-Keeps item account buys item.open_orders refl on price decided seen valued
        (entries, read, e) h

  pub buy_read-Keeps :
      (item : Analysis) (account : AlpacaAccount) (buys : ℕ) (entries : Option (List DoNotBuyEntry))
      → item.do_not_buy ≡ entries
      → settings.auto_trading ≡ true
      → is_usable item.price ≡ true
      → item.decision ≡ buy
      → item.portfolio ≡ some account
      → is_usable (number_of account.portfolio_value) ≡ true
      → buys ≤ max_buys_per_cycle
      → Keeps parse_int settings item buys (buy_read settings item account buys entries)
  unfolding buy_read
  buy_read-Keeps item account buys none read on price decided seen valued h = (tt, omega arith, h)
  buy_read-Keeps item account buys (some entries) read on price decided seen valued h =
      buy_listed-Keeps item account buys entries (entry_for item.symbol entries) refl on price
        decided seen valued read h
