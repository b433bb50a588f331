-- ===== src/Matching/Prices.antt =====
-- At which prices the loops of book.go fill.
use crypto_exchange_lab.Prelude.{
  ℕ, ◌≡◌, refl, sym, ap, subst, ◌∙◌, true, false, String, List, [], ◌∷◌, All, All-append, arith,
}
use crypto_exchange_lab.Decimal.{Decimal, Amount, ◌≼◌, is_zero}
use crypto_exchange_lab.Decimal.Laws.{cmp_flip_gt}
use crypto_exchange_lab.Loop.{while_keeps}
use crypto_exchange_lab.Matching.Book.{Order, Trade, is_market}
use crypto_exchange_lab.Matching.Fill.{fill_price}
use crypto_exchange_lab.Matching.Sweep.{
  Sweep, sweep, buy_goes_on, sell_goes_on, buy_fill, sell_fill, match_buy, match_sell, rounds,
}
use crypto_exchange_lab.Matching.Termination.{AllLive, buy_round}

module _ ⦃d : Decimal⦄ where
  -- A limit order's fills so far are within its limit, and the other side is live.
  record IsWithin (limit : Amount) (s : Sweep) : Type 0 where
    live : AllLive s.resting
    same : s.taker.price ≡ limit
    within : All (λ t. t.price ≼ limit) s.fills

  record IsAt (limit : Amount) (s : Sweep) : Type 0 where
    same : s.taker.price ≡ limit
    exact : All (λ t. t.price ≡ limit) s.fills

  -- A seller with a limit sells at it.
  pub fill_price_limit :
      (buyer seller : Order) → is_market seller ≡ false → fill_price buyer seller ≡ seller.price
  unfolding fill_price
  fill_price_limit buyer seller h = ground arith

  module _ (symbol : String) (clock : ℕ → ℕ) (limit : Amount)
      (is_limit : is_zero limit ≡ false) where
    buy_fill-IsWithin :
        (taker : Order) (resting : List Order) (fills : List Trade)
        → IsWithin limit (sweep taker resting fills)
        → buy_goes_on (sweep taker resting fills) ≡ true
        → IsWithin limit (buy_fill symbol clock (sweep taker resting fills))
    unfolding buy_fill buy_goes_on
    buy_fill-IsWithin taker [] fills w go = w
    buy_fill-IsWithin taker (best ∷ rest) fills w go = record {
      live = (buy_round symbol clock taker (best ∷ rest) fills w.live go).0;
      same = w.same;
      within =
          All-append (λ t. t.price ≼ limit) fills _ w.within
            (
              subst (λ p. p ≼ limit) (sym (fill_price_limit taker best w.live.0.has_limit))
                  best_within,
              tt,
            );
    }
      where
        best_within : best.price ≼ limit
        best_within k = ground (arith, w.same, is_limit, cmp_flip_gt best.price limit)

    sell_fill-IsAt :
        (taker : Order) (resting : List Order) (fills : List Trade)
        → IsAt limit (sweep taker resting fills)
        → IsAt limit (sell_fill symbol clock (sweep taker resting fills))
    unfolding sell_fill
    sell_fill-IsAt taker [] fills w = w
    sell_fill-IsAt taker (best ∷ rest) fills w = record {
      same = w.same;
      exact =
          All-append (λ t. t.price ≡ limit) fills _ w.exact
            (fill_price_limit best taker (ap (λ p. is_zero p) w.same ∙ is_limit) ∙ w.same, tt);
    }

  -- Over live asks, `matchBuy` fills a limit order at no more than its limit.
  pub match_buy-within :
      (symbol : String) (clock : ℕ → ℕ) (o : Order) (asks : List Order)
      → is_market o ≡ false
      → AllLive asks
      → All (λ t. t.price ≼ o.price) (match_buy symbol clock o asks).fills
  unfolding match_buy
  match_buy-within symbol clock o asks lim live =
      (while_keeps (IsWithin o.price) buy_goes_on (buy_fill symbol clock)
        (λ s w go. buy_fill-IsWithin symbol clock o.price lim s.taker s.resting s.fills w go)
        (rounds asks) (sweep o asks []) (record { live = live; same = refl; within = tt })).within

  -- `matchSell` fills a limit order at exactly its limit, also where the bid it meets is higher.
  pub match_sell-exact :
      (symbol : String) (clock : ℕ → ℕ) (o : Order) (bids : List Order)
      → is_market o ≡ false
      → All (λ t. t.price ≡ o.price) (match_sell symbol clock o bids).fills
  unfolding match_sell
  match_sell-exact symbol clock o bids lim =
      (while_keeps (IsAt o.price) sell_goes_on (sell_fill symbol clock)
        (λ s w go. sell_fill-IsAt symbol clock o.price lim s.taker s.resting s.fills w)
        (rounds bids) (sweep o bids []) (record { same = refl; exact = tt })).exact
