-- ===== src/Matching/Reference.antt =====
-- Another description of `matchBuy` and `matchSell`: what an order takes from the other side, met
-- one order after the other, each at most once.
use crypto_exchange_lab.Prelude.{
  ℕ, zero, suc, ◌<◌, ◌≡◌, refl, ◌∙◌, Bool, true, false, String, List, [], ◌∷◌, ◌++◌, if◌then◌else◌,
  ◌&&◌, ◌||◌, not, length, arith, Bool-cases, inl, inr,
}
use crypto_exchange_lab.Decimal.{
  Decimal, Amount, nil, ◌⊖◌, ◌≺◌, less, greater, less_or_equal, is_zero, minimum,
}
use crypto_exchange_lab.Decimal.Laws.{cmp_refl, cmp_flip, cmp_flip_gt}
use crypto_exchange_lab.Decimal.Order.{minus-minimum_cases, is_zero-pos, minimum_comm}
use crypto_exchange_lab.Loop.{while}
use crypto_exchange_lab.Matching.Book.{Order, Trade, is_market}
use crypto_exchange_lab.Matching.Fill.{fill_price}
use crypto_exchange_lab.Matching.Sweep.{
  Sweep, sweep, rounds, buy_goes_on, buy_fill, match_buy, sell_goes_on, sell_fill, match_sell,
}
use crypto_exchange_lab.Matching.Termination.{IsLive, AllLive}
use crypto_exchange_lab.Matching.Prices.{fill_price_limit}

module _ {ℓ} {S : Type ℓ} (test : S → Bool) (body : S → S) where
  while_stopped : (k : ℕ) (now : S) → test now ≡ false → while test body k now ≡ now
  unfolding while
  while_stopped zero now h = refl
  while_stopped (suc k) now h = rw (h, while) refl

module _ ⦃d : Decimal⦄ where
  module _ (clock : ℕ → ℕ) (met : Order → Order → Bool)
      (trade : ℕ → Order → Order → Amount → Trade) where
    -- Orders that are met are taken whole, up to the one that has more than is wanted.
    unfoldable pub take_orders : Order → List Order → List Trade → Sweep
    take_orders taker [] fills = sweep taker [] fills
    take_orders taker (o ∷ rest) fills =
        let now = clock (length fills) in
        let later =
          take_orders (record taker { remaining = taker.remaining ⊖ o.remaining }) rest
            (fills ++ trade now taker o o.remaining ∷ []) in
        if not (met taker o)
        then sweep taker (o ∷ rest) fills
        else if less taker.remaining o.remaining
        then sweep (record taker { remaining = nil })
            (record o { remaining = o.remaining ⊖ taker.remaining } ∷ rest)
            (fills ++ trade now taker o taker.remaining ∷ [])
        else later

    not_less : (a b : Amount) → minimum a b ≡ b → less a b ≡ false
    not_less a b m = ground (arith, cmp_refl b)

    is_less : (a b : Amount) → a ≺ b → less a b ≡ true
    is_less a b h = ground (arith, h)

    -- What the loop of one side says of a round.
    pub record IsLoop (goes_on : Sweep → Bool) (fill : Sweep → Sweep) : Type 0 where
      pub test :
          (taker o : Order) (rest : List Order) (fills : List Trade)
          → goes_on (sweep taker (o ∷ rest) fills) ≡ met taker o
      pub sold_out : (taker : Order) (fills : List Trade) → goes_on (sweep taker [] fills) ≡ false
      pub used_up :
          (taker o : Order) (rest : List Order) (fills : List Trade)
          → goes_on (sweep (record taker { remaining = nil }) (o ∷ rest) fills) ≡ false
      pub whole :
          (taker o : Order) (rest : List Order) (fills : List Trade)
          → IsLive o
          → minimum taker.remaining o.remaining ≡ o.remaining
          → is_zero (o.remaining ⊖ minimum taker.remaining o.remaining) ≡ true
          → fill (sweep taker (o ∷ rest) fills)
            ≡ sweep
                (record taker { remaining = taker.remaining ⊖ o.remaining })
                rest
                (fills ++ trade (clock (length fills)) taker o o.remaining ∷ [])
      pub part :
          (taker o : Order) (rest : List Order) (fills : List Trade)
          → IsLive o
          → minimum taker.remaining o.remaining ≡ taker.remaining
          → taker.remaining ⊖ minimum taker.remaining o.remaining ≡ nil
          → is_zero (o.remaining ⊖ minimum taker.remaining o.remaining) ≡ false
          → fill (sweep taker (o ∷ rest) fills)
            ≡ sweep
                (record taker { remaining = nil })
                (record o { remaining = o.remaining ⊖ taker.remaining } ∷ rest)
                (fills ++ trade (clock (length fills)) taker o taker.remaining ∷ [])

    module _ (goes_on : Sweep → Bool) (fill : Sweep → Sweep) (l : IsLoop goes_on fill) where
      -- Such a loop does what the walk does.
      pub loop-take_orders :
          (os : List Order) (k : ℕ) (taker : Order) (fills : List Trade)
          → AllLive os
          → length os < k
          → while goes_on fill k (sweep taker os fills) ≡ take_orders taker os fills
      unfolding take_orders while
      loop-take_orders os zero taker fills live h = absurd (omega arith)
      loop-take_orders [] (suc k) taker fills live h =
          while_stopped goes_on _ (suc k) (sweep taker [] fills) (l.sold_out taker fills)
      loop-take_orders (o ∷ rest) (suc k) taker fills live h = elim (Bool-cases (met taker o)) [
        | inr e ↦
            rw (e, take_orders)
              (while_stopped goes_on _ (suc k) (sweep taker (o ∷ rest) fills)
                (l.test taker o rest fills ∙ e))
        | inl e ↦ elim (minus-minimum_cases taker.remaining o.remaining) [
          | inl (m, z) ↦
              rw
                (
                  l.test taker o rest fills ∙ e,
                  while,
                  e,
                  not_less taker.remaining o.remaining m,
                  l.whole taker o rest fills live.0 m z,
                )
                (loop-take_orders rest k _ _ live.1 (omega (arith, h)))
          | inr (lt, m, n, pos) ↦
              rw
                (
                  l.test taker o rest fills ∙ e,
                  while,
                  e,
                  is_less taker.remaining o.remaining lt,
                  l.part taker o rest fills live.0 m n (is_zero-pos _ pos),
                )
                (while_stopped goes_on _ k _ (l.used_up taker _ rest _))
        ]
      ]

  -- Something is to be bought, and the ask is no dearer than a limit order's price.
  unfoldable pub is_met : Order → Order → Bool
  is_met taker ask =
      greater taker.remaining nil && (is_market taker || less_or_equal ask.price taker.price)

  -- A trade of an ask at its own price.
  abbrev pub bought : String → ℕ → Order → Order → Amount → Trade
  bought symbol now taker ask qty = record {
    symbol = symbol;
    buy_order_id = taker.id;
    sell_order_id = ask.id;
    buyer_user_id = taker.user_id;
    seller_user_id = ask.user_id;
    price = ask.price;
    quantity = qty;
    timestamp = now;
  }

  -- Something is to be sold, and the bid is no lower than a limit order's price.
  unfoldable pub is_offered : Order → Order → Bool
  is_offered taker bid =
      greater taker.remaining nil && (is_market taker || less_or_equal taker.price bid.price)

  -- A trade with a bid, at the limit of the order that sells, or at the bid of a market order.
  abbrev pub sold : String → ℕ → Order → Order → Amount → Trade
  sold symbol now taker bid qty = record {
    symbol = symbol;
    buy_order_id = bid.id;
    sell_order_id = taker.id;
    buyer_user_id = bid.user_id;
    seller_user_id = taker.user_id;
    price = if is_market taker then bid.price else taker.price;
    quantity = qty;
    timestamp = now;
  }

  fill_price-bid :
      (bid taker : Order)
      → is_market bid ≡ false
      → fill_price bid taker ≡ (if is_market taker then bid.price else taker.price)
  unfolding fill_price
  fill_price-bid bid taker h = ground arith

  module _ (symbol : String) (clock : ℕ → ℕ) where
    -- The asks that an order buys, each at its own price.
    abbrev pub take_asks : Order → List Order → List Trade → Sweep
    take_asks = take_orders clock is_met (bought symbol)

    -- The bids that an order sells to.
    abbrev pub take_bids : Order → List Order → List Trade → Sweep
    take_bids = take_orders clock is_offered (sold symbol)

    buy_goes_on-is_met :
        (taker ask : Order) (rest : List Order) (fills : List Trade)
        → buy_goes_on (sweep taker (ask ∷ rest) fills) ≡ is_met taker ask
    unfolding buy_goes_on is_met
    buy_goes_on-is_met taker ask rest fills =
        ground (arith, cmp_flip taker.price ask.price, cmp_flip_gt ask.price taker.price)

    sell_goes_on-is_offered :
        (taker bid : Order) (rest : List Order) (fills : List Trade)
        → sell_goes_on (sweep taker (bid ∷ rest) fills) ≡ is_offered taker bid
    unfolding sell_goes_on is_offered
    sell_goes_on-is_offered taker bid rest fills = ground arith

    buy-IsLoop : IsLoop clock is_met (bought symbol) buy_goes_on (buy_fill symbol clock)
    unfolding buy_fill buy_goes_on
    buy-IsLoop = record {
      test = buy_goes_on-is_met;
      sold_out = λ taker fills. refl;
      used_up = λ taker ask rest fills. ground (arith, cmp_refl nil);
      whole = λ taker ask rest fills live m z.
          rw (fill_price_limit taker ask live.has_limit, z, m) refl;
      part = λ taker ask rest fills live m n z.
          rw (fill_price_limit taker ask live.has_limit, z, n, m) refl;
    }

    sell-IsLoop : IsLoop clock is_offered (sold symbol) sell_goes_on (sell_fill symbol clock)
    unfolding sell_fill sell_goes_on
    sell-IsLoop = record {
      test = sell_goes_on-is_offered;
      sold_out = λ taker fills. refl;
      used_up = λ taker bid rest fills. ground (arith, cmp_refl nil);
      whole = λ taker bid rest fills live m z.
          rw
            (
              fill_price-bid bid taker live.has_limit,
              minimum_comm bid.remaining taker.remaining,
              z,
              m,
            )
            refl;
      part = λ taker bid rest fills live m n z.
          rw
            (
              fill_price-bid bid taker live.has_limit,
              minimum_comm bid.remaining taker.remaining,
              z,
              n,
              m,
            )
            refl;
    }

    -- On live orders the loops of `matchBuy` and `matchSell` do what the walk over the other side does:
    -- each order that is met is taken whole, the last one in part, and what is behind stays as it was.
    -- An ask is bought at its own price; a bid is sold to at the limit of the order that sells, or at
    -- the bid's price by a market order.
    pub match-take_orders :
        (o : Order) (asks bids : List Order)
        → AllLive asks
        → AllLive bids
        → (match_buy symbol clock o asks ≡ take_asks o asks [])
          × (match_sell symbol clock o bids ≡ take_bids o bids [])
    unfolding match_buy match_sell
    match-take_orders o asks bids live_asks live_bids = (
      loop-take_orders clock is_met (bought symbol) _ _ buy-IsLoop asks (rounds asks) o [] live_asks
          (omega arith),
      loop-take_orders clock is_offered (sold symbol) _ _ sell-IsLoop bids (rounds bids) o []
          live_bids (omega arith),
    )
