-- ===== src/Matching/Invariant.antt =====
-- The invariant of the book, and that `Match` keeps it.
use crypto_exchange_lab.Prelude.{
  ◌≡◌, false, List, [], ◌∷◌, ◌++◌, All, All-append, All-map, All-zip, ◌≢◌, arith, Bool-cases, inl,
  inr, not, ◌&&◌,
}
use crypto_exchange_lab.Decimal.{Decimal, nil, greater, ◌≺◌}
use crypto_exchange_lab.Decimal.Laws.{lt_le_trans, le_lt_trans, cmp_flip, cmp_flip_gt}
use crypto_exchange_lab.Decimal.Order.{pos_of_greater}
use crypto_exchange_lab.Exchange.{Side}
use crypto_exchange_lab.Sort.{IsSorted, sort_slice, sort_slice-All, sort_slice-IsSorted}
use crypto_exchange_lab.Matching.Book.{
  Order, Trade, Book, bid_before, ask_before, is_market, insert_resting,
}
use crypto_exchange_lab.Matching.Sweep.{buy_goes_on, sell_goes_on, record_trades, rest_order}
use crypto_exchange_lab.Matching.Termination.{IsLive, AllLive}
use crypto_exchange_lab.Matching.Priority.{
  ask_before_asym, bid_before_asym, ask_before_trans, bid_before_trans, ask_price-le, bid_price-le,
}

module _ ⦃d : Decimal⦄ where
  -- Every resting order is live, each side is in its order of priority, and no bid reaches an ask.
  pub record IsValid (b : Book) : Type 0 where
    pub live_bids : AllLive b.bids
    pub live_asks : AllLive b.asks
    pub sorted_bids : IsSorted bid_before b.bids
    pub sorted_asks : IsSorted ask_before b.asks
    pub uncrossed : All (λ bid. All (λ ask. bid.price ≺ ask.price) b.asks) b.bids

  -- A buy order that stopped with something left is below every ask that is left.
  pub stopped_below :
      (o : Order) (asks : List Order) (fills : List Trade)
      → IsLive o
      → IsSorted ask_before asks
      → buy_goes_on (record { taker = o; resting = asks; fills = fills }) ≡ false
      → All (λ ask. o.price ≺ ask.price) asks
  unfolding buy_goes_on
  stopped_below o [] fills live s h = tt
  stopped_below o (best ∷ rest) fills live s h = (
    below,
    All-map (λ ask k. lt_le_trans o.price best.price ask.price below (ask_price-le best ask k)) rest
        s.0,
  )
    where
      below : o.price ≺ best.price
      below = ground (arith, live.some_left, live.has_limit, cmp_flip nil o.remaining)

  pub stopped_above :
      (o : Order) (bids : List Order) (fills : List Trade)
      → IsLive o
      → IsSorted bid_before bids
      → sell_goes_on (record { taker = o; resting = bids; fills = fills }) ≡ false
      → All (λ bid. bid.price ≺ o.price) bids
  unfolding sell_goes_on
  stopped_above o [] fills live s h = tt
  stopped_above o (best ∷ rest) fills live s h = (
    above,
    All-map (λ bid k. le_lt_trans bid.price best.price o.price (bid_price-le best bid k) above) rest
        s.0,
  )
    where
      above : best.price ≺ o.price
      above = ground (
        arith,
        live.some_left,
        live.has_limit,
        cmp_flip nil o.remaining,
        cmp_flip_gt o.price best.price,
      )

  pub record_trades-IsValid :
      (ts : List Trade) (b : Book) → IsValid b → IsValid (record_trades ts b)
  record_trades-IsValid [] b v = v
  record_trades-IsValid (t ∷ ts) b v = record {
    live_bids = v.live_bids;
    live_asks = v.live_asks;
    sorted_bids = v.sorted_bids;
    sorted_asks = v.sorted_asks;
    uncrossed = v.uncrossed;
  }

  pub insert_resting_sell :
      (o : Order) (b : Book)
      → o.side ≢ Side.buy
      → insert_resting o b ≡ record b { asks = sort_slice ask_before (b.asks ++ o ∷ []) }
  unfolding insert_resting
  insert_resting_sell o b h = ground arith

  -- A live buy order below every ask can rest with the bids.
  pub insert_resting_buy-IsValid :
      (o : Order) (b : Book)
      → o.side ≡ Side.buy
      → IsLive o
      → All (λ ask. o.price ≺ ask.price) b.asks
      → IsValid b
      → IsValid (insert_resting o b)
  unfolding insert_resting
  insert_resting_buy-IsValid o b e live below v =
      rw (e, insert_resting)
        (record {
          live_bids =
              sort_slice-All bid_before IsLive _
                (All-append IsLive b.bids _ v.live_bids (live, tt));
          live_asks = v.live_asks;
          sorted_bids =
              sort_slice-IsSorted bid_before bid_before_asym bid_before_trans (b.bids ++ o ∷ []);
          sorted_asks = v.sorted_asks;
          uncrossed =
              sort_slice-All bid_before (λ bid. All (λ ask. bid.price ≺ ask.price) b.asks) _
                (All-append (λ bid. All (λ ask. bid.price ≺ ask.price) b.asks) b.bids _ v.uncrossed
                  (below, tt));
        })

  -- A live sell order above every bid can rest with the asks.
  pub insert_resting_sell-IsValid :
      (o : Order) (b : Book)
      → o.side ≢ Side.buy
      → IsLive o
      → All (λ bid. bid.price ≺ o.price) b.bids
      → IsValid b
      → IsValid (insert_resting o b)
  unfolding insert_resting
  insert_resting_sell-IsValid o b e live above v = rw (insert_resting_sell o b e) (record {
    live_bids = v.live_bids;
    live_asks =
        sort_slice-All ask_before IsLive _ (All-append IsLive b.asks _ v.live_asks (live, tt));
    sorted_bids = v.sorted_bids;
    sorted_asks =
        sort_slice-IsSorted ask_before ask_before_asym ask_before_trans (b.asks ++ o ∷ []);
    uncrossed =
        All-zip
          (λ bid k m.
            sort_slice-All ask_before (λ ask. bid.price ≺ ask.price) _
              (All-append (λ ask. bid.price ≺ ask.price) b.asks _ k (m, tt)))
          b.bids v.uncrossed above;
  })

  pub rest_order-IsValid :
      (fills : List Trade) (o : Order) (b : Book)
      → IsValid b
      → (IsLive o → IsValid (insert_resting o b))
      → IsValid (rest_order fills o b).2
  unfolding rest_order
  rest_order-IsValid fills o b v rests =
      elim (Bool-cases (greater o.remaining nil && not (is_market o))) [
        | inl e ↦ rw e (
            rests (record {
              some_left = pos_of_greater o.remaining (ground arith);
              has_limit = ground arith;
            }))
        | inr e ↦ rw e v
      ]
