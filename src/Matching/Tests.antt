-- ===== src/Matching/Tests.antt =====
-- Runs of the order book on small inputs, book_test.go's among them, and the theorems at inputs
-- that meet their hypotheses.
use crypto_exchange_lab.Prelude.{
  ℕ, suc, ◌≡◌, refl, false, String, [], ◌∷◌, none, All, arith, ◌≤◌, length,
}
use crypto_exchange_lab.Prelude.Int.{pos, ◌+ℤ◌, ◌-ℤ◌}
use crypto_exchange_lab.Decimal.{◌⊕◌, ◌≼◌}
use crypto_exchange_lab.Decimal.Whole.{whole}
use crypto_exchange_lab.Exchange.{Side}
use crypto_exchange_lab.Matching.Book.{Order, Book, ask_before, bid_before, cancel}
use crypto_exchange_lab.Matching.Sweep.{
  match_order, rest_order, keep_recent, match_buy, match_sell, buy_goes_on, sell_goes_on,
}
use crypto_exchange_lab.Matching.Termination.{match_ends, IsLive}
use crypto_exchange_lab.Matching.Totals.{total_left, total_filled}
use crypto_exchange_lab.Matching.Invariant.{IsValid}
use crypto_exchange_lab.Matching.Keeps.{match_order-IsValid}
use crypto_exchange_lab.Matching.Withdraw.{Outcome, cancel-Outcome}
use crypto_exchange_lab.Matching.Prices.{match_buy-within, match_sell-exact}
use crypto_exchange_lab.Matching.Reference.{take_asks, take_bids, match-take_orders}
use crypto_exchange_lab.Matching.Balance.{match_order_buy-balance, match_order_sell-balance}
use crypto_exchange_lab.Matching.Depth.{aggregate_side}
use crypto_exchange_lab.Matching.Depth.Levels.{
  IsComplete, aggregate_side-IsComplete, length-aggregate_side,
}

abbrev order : String → Side → ℕ → ℕ → ℕ → Order
order i s p q t = record {
  id = i;
  user_id = "alice";
  side = s;
  price = pos p;
  quantity = pos q;
  remaining = pos q;
  created_at = t;
}

abbrev clock : ℕ → ℕ
clock n = 7

-- Two asks and a bid.
abbrev market : Book
market = record {
  symbol = "BTC/USDT";
  bids = order "b1" Side.buy 90 4 1 ∷ [];
  asks = order "s1" Side.sell 100 2 2 ∷ order "s2" Side.sell 101 3 1 ∷ [];
  trades = [];
}

abbrev big_buy : Order
big_buy = order "b2" Side.buy 101 4 9

abbrev big_sell : Order
big_sell = order "s3" Side.sell 80 6 9

live : (i : String) (s : Side) (p q t : ℕ) → IsLive (order i s (suc p) (suc q) t)
live i s p q t = record { some_left = ground arith; has_limit = ground arith }

market-IsValid : IsValid market
unfolding ask_before bid_before
market-IsValid = record {
  live_bids = (live "b1" Side.buy 89 3 1, tt);
  live_asks = (live "s1" Side.sell 99 1 2, (live "s2" Side.sell 100 2 1, tt));
  sorted_bids = (tt, tt);
  sorted_asks = ((refl, tt), (tt, tt));
  uncrossed = ((refl, (refl, tt)), tt);
}

-- The best ask is filled first, and the rest of the second stays.
match_big_buy :
    let (fills, resting, b) = match_order clock big_buy market in
    (total_filled fills ≡ pos 4) × (resting ≡ none) × (total_left b.asks ≡ pos 1)
unfolding match_order match_buy rest_order keep_recent total_filled total_left ◌+ℤ◌ ◌-ℤ◌
match_big_buy = (refl, refl, refl)

match_order-IsValid_example : IsValid (match_order clock big_buy market).2
match_order-IsValid_example = match_order-IsValid clock big_buy market market-IsValid

cancel-Outcome_example : Outcome "s2" market (cancel "s2" market)
cancel-Outcome_example = cancel-Outcome "s2" market

match_ends_example :
    (buy_goes_on (match_buy "BTC/USDT" clock big_buy market.asks) ≡ false)
    × (sell_goes_on (match_sell "BTC/USDT" clock big_sell market.bids) ≡ false)
match_ends_example =
    match_ends "BTC/USDT" clock big_buy big_sell market.asks market.bids market-IsValid.live_asks
      market-IsValid.live_bids

match-take_orders_example :
    (match_buy "BTC/USDT" clock big_buy market.asks
      ≡ take_asks "BTC/USDT" clock big_buy market.asks [])
    × (match_sell "BTC/USDT" clock big_buy market.bids
        ≡ take_bids "BTC/USDT" clock big_buy market.bids [])
match-take_orders_example =
    match-take_orders "BTC/USDT" clock big_buy market.asks market.bids market-IsValid.live_asks
      market-IsValid.live_bids

match_buy-within_example :
    All (λ t. t.price ≼ pos 101) (match_buy "BTC/USDT" clock big_buy market.asks).fills
match_buy-within_example =
    match_buy-within "BTC/USDT" clock big_buy market.asks refl market-IsValid.live_asks

match_sell-exact_example :
    All (λ t. t.price ≡ pos 80) (match_sell "BTC/USDT" clock big_sell market.bids).fills
match_sell-exact_example = match_sell-exact "BTC/USDT" clock big_sell market.bids refl

match_order_buy-balance_example :
    let (fills, resting, c) = match_order clock big_buy market in
    (total_left c.asks ⊕ total_filled fills ≡ total_left market.asks)
    × (total_left c.bids ⊕ total_filled fills ≡ total_left market.bids ⊕ pos 4)
match_order_buy-balance_example =
    match_order_buy-balance clock big_buy market refl (live "b2" Side.buy 100 3 9)

match_order_sell-balance_example :
    let (fills, resting, c) = match_order clock big_sell market in
    (total_left c.bids ⊕ total_filled fills ≡ total_left market.bids)
    × (total_left c.asks ⊕ total_filled fills ≡ total_left market.asks ⊕ pos 6)
match_order_sell-balance_example =
    match_order_sell-balance clock big_sell market (λ e. cc) (live "s3" Side.sell 79 5 9)

aggregate_side-IsComplete_example :
    All (IsComplete market.asks) (aggregate_side market.asks 15 false)
aggregate_side-IsComplete_example = aggregate_side-IsComplete market.asks 15 false

length-aggregate_side_example : length (aggregate_side market.asks 1 false) ≤ 1
length-aggregate_side_example = length-aggregate_side market.asks 1 false
