-- ===== src/Matching/Balance.antt =====
-- `Match` moves quantity between the sides of the book and nothing else.
use crypto_exchange_lab.Prelude.{
  ℕ, ◌≡◌, ◌≢◌, refl, sym, ap, ◌∙◌, Bool, false, String, List, [], ◌∷◌, ◌++◌, Bool-cases, inl, inr,
}
use crypto_exchange_lab.Decimal.{Decimal, nil, ◌⊕◌, ◌≺◌, ◌≼◌, greater}
use crypto_exchange_lab.Decimal.Laws.{plus_assoc, plus-zero, minus_nonneg, le_of_lt}
use crypto_exchange_lab.Decimal.Order.{
  is_zero-pos, minimum-le_left, minimum-le_right, zero_of_not-greater,
}
use crypto_exchange_lab.Exchange.{Side}
use crypto_exchange_lab.Loop.{while_keeps}
use crypto_exchange_lab.Sort.{sort_slice}
use crypto_exchange_lab.Matching.Book.{
  Order, Trade, Book, bid_before, ask_before, insert_resting, is_market,
}
use crypto_exchange_lab.Matching.Sweep.{
  sweep, buy_goes_on, sell_goes_on, buy_fill, sell_fill, match_buy, match_sell, rounds,
  record_trades, rest_order, match_order, taken,
}
use crypto_exchange_lab.Matching.Termination.{IsLive}
use crypto_exchange_lab.Matching.Totals.{
  total_filled, total_left, total_left-append, total_left-sort_slice,
}
use crypto_exchange_lab.Matching.Frame.{match_buy-taker, match_sell-taker}
use crypto_exchange_lab.Matching.Conservation.{
  match_buy-taken, match_buy-given, match_sell-taken, match_sell-given,
}
use crypto_exchange_lab.Matching.Invariant.{insert_resting_sell}
use crypto_exchange_lab.Matching.Keeps.{
  match_order_buy, match_order_sell, record_trades_asks, record_trades_bids,
}

module _ ⦃d : Decimal⦄ where
  module _ (symbol : String) (clock : ℕ → ℕ) where
    buy_fill-nonneg :
        (taker : Order) (resting : List Order) (fills : List Trade)
        → nil ≼ taker.remaining
        → nil ≼ (buy_fill symbol clock (sweep taker resting fills)).taker.remaining
    unfolding buy_fill
    buy_fill-nonneg taker [] fills h = h
    buy_fill-nonneg taker (best ∷ rest) fills h =
        minus_nonneg taker.remaining _ (minimum-le_left taker.remaining best.remaining)

    match_buy-nonneg :
        (o : Order) (asks : List Order)
        → nil ≼ o.remaining
        → nil ≼ (match_buy symbol clock o asks).taker.remaining
    unfolding match_buy
    match_buy-nonneg o asks h =
        while_keeps (λ s. nil ≼ s.taker.remaining) buy_goes_on (buy_fill symbol clock)
          (λ s k t. buy_fill-nonneg s.taker s.resting s.fills k) (rounds asks) (sweep o asks []) h

    sell_fill-nonneg :
        (taker : Order) (resting : List Order) (fills : List Trade)
        → nil ≼ taker.remaining
        → nil ≼ (sell_fill symbol clock (sweep taker resting fills)).taker.remaining
    unfolding sell_fill
    sell_fill-nonneg taker [] fills h = h
    sell_fill-nonneg taker (best ∷ rest) fills h =
        minus_nonneg taker.remaining _ (minimum-le_right best.remaining taker.remaining)

    match_sell-nonneg :
        (o : Order) (bids : List Order)
        → nil ≼ o.remaining
        → nil ≼ (match_sell symbol clock o bids).taker.remaining
    unfolding match_sell
    match_sell-nonneg o bids h =
        while_keeps (λ s. nil ≼ s.taker.remaining) sell_goes_on (sell_fill symbol clock)
          (λ s k t. sell_fill-nonneg s.taker s.resting s.fills k) (rounds bids) (sweep o bids []) h

  total_left-rest :
      (less : Order → Order → Bool) (os : List Order) (o : Order)
      → total_left (sort_slice less (os ++ o ∷ [])) ≡ total_left os ⊕ o.remaining
  unfolding total_left
  total_left-rest less os o =
      total_left-sort_slice less (os ++ o ∷ [])
      ∙ total_left-append os (o ∷ [])
      ∙ ap (λ x. total_left os ⊕ x) (plus-zero o.remaining)

  -- What is left of a limit order that is not below zero goes to its side, or is nothing.
  rest_order_buy :
      (fills : List Trade) (o : Order) (b : Book)
      → o.side ≡ Side.buy
      → is_market o ≡ false
      → nil ≼ o.remaining
      → let r = rest_order fills o b in
        (total_left r.2.bids ≡ total_left b.bids ⊕ o.remaining)
        × (r.2.asks ≡ b.asks)
        × (r.0 ≡ fills)
  unfolding rest_order insert_resting
  rest_order_buy fills o b e lim pos = elim (Bool-cases (greater o.remaining nil)) [
    | inl g ↦
        rw (g, lim, e, rest_order, insert_resting) (total_left-rest bid_before b.bids o, refl, refl)
    | inr g ↦
        rw (g, rest_order)
          (
            sym (rw (zero_of_not-greater o.remaining pos g) (plus-zero (total_left b.bids))),
            refl,
            refl,
          )
  ]

  rest_order_sell :
      (fills : List Trade) (o : Order) (b : Book)
      → o.side ≢ Side.buy
      → is_market o ≡ false
      → nil ≼ o.remaining
      → let r = rest_order fills o b in
        (total_left r.2.asks ≡ total_left b.asks ⊕ o.remaining)
        × (r.2.bids ≡ b.bids)
        × (r.0 ≡ fills)
  unfolding rest_order
  rest_order_sell fills o b e lim pos = elim (Bool-cases (greater o.remaining nil)) [
    | inl g ↦
        rw (g, lim, rest_order, insert_resting_sell o b e)
          (total_left-rest ask_before b.asks o, refl, refl)
    | inr g ↦
        rw (g, rest_order)
          (
            sym (rw (zero_of_not-greater o.remaining pos g) (plus-zero (total_left b.asks))),
            refl,
            refl,
          )
  ]

  taken_live : (o : Order) → nil ≺ o.remaining → taken o ≡ o
  taken_live o h = rw (is_zero-pos o.remaining h)

  -- A limit buy with something left: the asks lose what was filled, and the bids gain the rest.
  pub match_order_buy-balance :
      (clock : ℕ → ℕ) (o : Order) (b : Book)
      → o.side ≡ Side.buy
      → IsLive o
      → let (fills, resting, c) = match_order clock o b in
        (total_left c.asks ⊕ total_filled fills ≡ total_left b.asks)
        × (total_left c.bids ⊕ total_filled fills ≡ total_left b.bids ⊕ o.remaining)
  match_order_buy-balance clock o b e live =
      let s = match_buy b.symbol clock o b.asks in
      let b1 = record_trades s.fills (record b { asks = s.resting }) in
      let same = match_buy-taker b.symbol clock o b.asks in
      let r =
        rest_order_buy s.fills s.taker b1 (ap (λ t. t.side) same ∙ e)
          (ap (λ t. is_market t) same ∙ live.has_limit)
          (match_buy-nonneg b.symbol clock o b.asks (le_of_lt nil o.remaining live.some_left)) in
      rw (match_order_buy clock o b e, taken_live o live.some_left)
        (
          rw
              (
                r.1,
                r.2,
                record_trades_asks s.fills (record b { asks = s.resting }) (λ x. x ≡ s.resting)
                    refl,
              )
              (match_buy-given b.symbol clock o b.asks),
          rw
              (
                r.0,
                r.2,
                record_trades_bids s.fills (record b { asks = s.resting }) (λ x. x ≡ b.bids) refl,
              )
              (plus_assoc (total_left b.bids) s.taker.remaining (total_filled s.fills)
                ∙ ap (λ x. total_left b.bids ⊕ x) (match_buy-taken b.symbol clock o b.asks)),
        )

  -- A limit sell with something left: the bids lose what was filled, and the asks gain the rest.
  pub match_order_sell-balance :
      (clock : ℕ → ℕ) (o : Order) (b : Book)
      → o.side ≢ Side.buy
      → IsLive o
      → let (fills, resting, c) = match_order clock o b in
        (total_left c.bids ⊕ total_filled fills ≡ total_left b.bids)
        × (total_left c.asks ⊕ total_filled fills ≡ total_left b.asks ⊕ o.remaining)
  match_order_sell-balance clock o b e live =
      let s = match_sell b.symbol clock o b.bids in
      let b1 = record_trades s.fills (record b { bids = s.resting }) in
      let same = match_sell-taker b.symbol clock o b.bids in
      let r =
        rest_order_sell s.fills s.taker b1 (λ k. e (sym (ap (λ t. t.side) same) ∙ k))
          (ap (λ t. is_market t) same ∙ live.has_limit)
          (match_sell-nonneg b.symbol clock o b.bids (le_of_lt nil o.remaining live.some_left)) in
      rw (match_order_sell clock o b e, taken_live o live.some_left)
        (
          rw
              (
                r.1,
                r.2,
                record_trades_bids s.fills (record b { bids = s.resting }) (λ x. x ≡ s.resting)
                    refl,
              )
              (match_sell-given b.symbol clock o b.bids),
          rw
              (
                r.0,
                r.2,
                record_trades_asks s.fills (record b { bids = s.resting }) (λ x. x ≡ b.asks) refl,
              )
              (plus_assoc (total_left b.asks) s.taker.remaining (total_filled s.fills)
                ∙ ap (λ x. total_left b.asks ⊕ x) (match_sell-taken b.symbol clock o b.bids)),
        )
