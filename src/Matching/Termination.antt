-- ===== src/Matching/Termination.antt =====
-- The loops of book.go end, and what they leave in the book is live.
use crypto_exchange_lab.Prelude.{
  ℕ, suc, ◌<◌, ◌≡◌, true, false, String, List, [], ◌∷◌, if◌then◌else◌, length, All, arith,
}
use crypto_exchange_lab.Decimal.{Decimal, nil, greater, ◌≺◌, minimum, ◌⊖◌}
use crypto_exchange_lab.Decimal.Order.{minus-minimum_cases, minimum_comm, is_zero-pos, greater-zero}
use crypto_exchange_lab.Loop.{while_keeps, while_ends}
use crypto_exchange_lab.Matching.Book.{Order, Trade, is_market}
use crypto_exchange_lab.Matching.Sweep.{
  Sweep, buy_goes_on, sell_goes_on, buy_fill, sell_fill, match_buy, match_sell, sweep, rounds,
}

module _ ⦃d : Decimal⦄ where
  -- A resting order has something left and a limit price.
  pub record IsLive (o : Order) : Type 0 where
    pub some_left : nil ≺ o.remaining
    pub has_limit : is_market o ≡ false

  abbrev pub AllLive : List Order → Type 0
  AllLive = All IsLive

  -- Rounds to come: none once the incoming order is used up.
  pub measure : Sweep → ℕ
  measure s = if greater s.taker.remaining nil then suc (length s.resting) else 0

  measure-lt-rounds :
      (o : Order) (resting : List Order) → measure (sweep o resting []) < rounds resting
  unfolding measure
  measure-lt-rounds o resting = ground arith

  module _ (symbol : String) (clock : ℕ → ℕ) where
    pub buy_round :
        (taker : Order) (resting : List Order) (fills : List Trade)
        → AllLive resting
        → buy_goes_on (sweep taker resting fills) ≡ true
        → AllLive (buy_fill symbol clock (sweep taker resting fills)).resting
          × (measure (buy_fill symbol clock (sweep taker resting fills))
              < measure (sweep taker resting fills))
    unfolding buy_goes_on buy_fill measure
    buy_round taker [] fills live go = ground arith
    buy_round taker (best ∷ rest) fills live go = ground (
      arith,
      minus-minimum_cases taker.remaining best.remaining,
      minimum_comm best.remaining taker.remaining,
      is_zero-pos (best.remaining ⊖ minimum taker.remaining best.remaining),
      greater-zero (taker.remaining ⊖ minimum taker.remaining best.remaining),
    )

    -- The loop of `matchBuy` leaves live orders behind.
    pub match_buy-AllLive :
        (o : Order) (asks : List Order)
        → AllLive asks
        → AllLive (match_buy symbol clock o asks).resting
    unfolding match_buy
    match_buy-AllLive o asks live =
        while_keeps (λ s. AllLive s.resting) buy_goes_on (buy_fill symbol clock)
          (λ s h t. (buy_round s.taker s.resting s.fills h t).0) (rounds asks) (sweep o asks [])
          live

    -- Over live orders the loop of `matchBuy` ends by its own condition.
    pub match_buy_ends :
        (o : Order) (asks : List Order)
        → AllLive asks
        → buy_goes_on (match_buy symbol clock o asks) ≡ false
    unfolding match_buy
    match_buy_ends o asks live =
        while_ends (λ s. AllLive s.resting) measure buy_goes_on (buy_fill symbol clock)
          (λ s h t. buy_round s.taker s.resting s.fills h t) (rounds asks) (sweep o asks [])
          (measure-lt-rounds o asks) live

    pub sell_round :
        (taker : Order) (resting : List Order) (fills : List Trade)
        → AllLive resting
        → sell_goes_on (sweep taker resting fills) ≡ true
        → AllLive (sell_fill symbol clock (sweep taker resting fills)).resting
          × (measure (sell_fill symbol clock (sweep taker resting fills))
              < measure (sweep taker resting fills))
    unfolding sell_goes_on sell_fill measure
    sell_round taker [] fills live go = ground arith
    sell_round taker (best ∷ rest) fills live go = ground (
      arith,
      minus-minimum_cases taker.remaining best.remaining,
      minimum_comm best.remaining taker.remaining,
      is_zero-pos (best.remaining ⊖ minimum taker.remaining best.remaining),
      greater-zero (taker.remaining ⊖ minimum taker.remaining best.remaining),
    )

    -- The loop of `matchSell` leaves live orders behind.
    pub match_sell-AllLive :
        (o : Order) (bids : List Order)
        → AllLive bids
        → AllLive (match_sell symbol clock o bids).resting
    unfolding match_sell
    match_sell-AllLive o bids live =
        while_keeps (λ s. AllLive s.resting) sell_goes_on (sell_fill symbol clock)
          (λ s h t. (sell_round s.taker s.resting s.fills h t).0) (rounds bids) (sweep o bids [])
          live

    -- Over live orders the loop of `matchSell` ends by its own condition.
    pub match_sell_ends :
        (o : Order) (bids : List Order)
        → AllLive bids
        → sell_goes_on (match_sell symbol clock o bids) ≡ false
    unfolding match_sell
    match_sell_ends o bids live =
        while_ends (λ s. AllLive s.resting) measure sell_goes_on (sell_fill symbol clock)
          (λ s h t. sell_round s.taker s.resting s.fills h t) (rounds bids) (sweep o bids [])
          (measure-lt-rounds o bids) live

    -- Over live orders the loops of `matchBuy` and of `matchSell` end by their own conditions.
    pub match_ends :
        (buyer seller : Order) (asks bids : List Order)
        → AllLive asks
        → AllLive bids
        → (buy_goes_on (match_buy symbol clock buyer asks) ≡ false)
          × (sell_goes_on (match_sell symbol clock seller bids) ≡ false)
    match_ends buyer seller asks bids a b =
        (match_buy_ends buyer asks a, match_sell_ends seller bids b)
