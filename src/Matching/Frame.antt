-- ===== src/Matching/Frame.antt =====
-- What the matching loops leave alone: every field of an order but what is left of it, and the
-- order of the other side.
use crypto_exchange_lab.Prelude.{
  ℕ, ◌≡◌, refl, ap, Bool, String, List, [], ◌∷◌, All, Bool-cases, inl, inr,
}
use crypto_exchange_lab.Decimal.{Decimal, Amount, is_zero}
use crypto_exchange_lab.Loop.{while_keeps}
use crypto_exchange_lab.Sort.{IsSorted}
use crypto_exchange_lab.Matching.Book.{Order, Trade, bid_before, ask_before}
use crypto_exchange_lab.Matching.Fill.{unless_empty}
use crypto_exchange_lab.Matching.Sweep.{
  sweep, put_back, buy_goes_on, sell_goes_on, buy_fill, sell_fill, match_buy, match_sell, rounds,
}

module _ ⦃d : Decimal⦄ where
  abbrev pub with_left : Order → Amount → Order
  with_left o r = record o { remaining = r }

  -- The second order is the first but for what is left.
  abbrev pub IsSame : Order → Order → Type 0
  IsSame o t = t ≡ with_left o t.remaining

  put_back-All :
      (P : Order → Type 0) (o : Order) (rest : List Order)
      → P o
      → All P rest
      → All P (put_back (unless_empty o) rest)
  put_back-All P o rest h k = elim (Bool-cases (is_zero o.remaining)) [
    | inl e ↦ rw e k
    | inr e ↦ rw e (h, k)
  ]

  put_back-IsSorted :
      (less : Order → Order → Bool) (o : Order) (rest : List Order)
      → IsSorted less (o ∷ rest)
      → IsSorted less (put_back (unless_empty o) rest)
  put_back-IsSorted less o rest h = elim (Bool-cases (is_zero o.remaining)) [
    | inl e ↦ rw e h.1
    | inr e ↦ rw e h
  ]

  module _ (symbol : String) (clock : ℕ → ℕ) where
    buy_fill-All :
        (P : Order → Type 0)
        → ((o : Order) (r : Amount) → P o → P (with_left o r))
        → (taker : Order) (resting : List Order) (fills : List Trade) → All P resting
        → All P (buy_fill symbol clock (sweep taker resting fills)).resting
    unfolding buy_fill
    buy_fill-All P keep taker [] fills h = h
    buy_fill-All P keep taker (best ∷ rest) fills h = put_back-All P _ rest (keep best _ h.0) h.1

    -- What holds of the other side and does not turn on what is left of an order goes on to hold.
    pub match_buy-All :
        (P : Order → Type 0)
        → ((o : Order) (r : Amount) → P o → P (with_left o r))
        → (o : Order) (asks : List Order) → All P asks
        → All P (match_buy symbol clock o asks).resting
    unfolding match_buy
    match_buy-All P keep o asks h =
        while_keeps (λ s. All P s.resting) buy_goes_on (buy_fill symbol clock)
          (λ s k t. buy_fill-All P keep s.taker s.resting s.fills k) (rounds asks) (sweep o asks [])
          h

    buy_fill-taker :
        (o taker : Order) (resting : List Order) (fills : List Trade)
        → IsSame o taker
        → IsSame o (buy_fill symbol clock (sweep taker resting fills)).taker
    unfolding buy_fill
    buy_fill-taker o taker [] fills h = h
    buy_fill-taker o taker (best ∷ rest) fills h =
        ap
          (λ t.
            with_left t (buy_fill symbol clock (sweep taker (best ∷ rest) fills)).taker.remaining)
          h

    -- The loop changes nothing of the incoming order but what is left of it.
    pub match_buy-taker :
        (o : Order) (asks : List Order) → IsSame o (match_buy symbol clock o asks).taker
    unfolding match_buy
    match_buy-taker o asks =
        while_keeps (λ s. IsSame o s.taker) buy_goes_on (buy_fill symbol clock)
          (λ s k t. buy_fill-taker o s.taker s.resting s.fills k) (rounds asks) (sweep o asks [])
          refl

    buy_fill-IsSorted :
        (taker : Order) (resting : List Order) (fills : List Trade)
        → IsSorted ask_before resting
        → IsSorted ask_before (buy_fill symbol clock (sweep taker resting fills)).resting
    unfolding buy_fill ask_before
    buy_fill-IsSorted taker [] fills h = h
    buy_fill-IsSorted taker (best ∷ rest) fills h =
        put_back-IsSorted ask_before (with_left best _) rest h

    -- The other side stays in its order of priority.
    pub match_buy-IsSorted :
        (o : Order) (asks : List Order)
        → IsSorted ask_before asks
        → IsSorted ask_before (match_buy symbol clock o asks).resting
    unfolding match_buy
    match_buy-IsSorted o asks h =
        while_keeps (λ s. IsSorted ask_before s.resting) buy_goes_on (buy_fill symbol clock)
          (λ s k t. buy_fill-IsSorted s.taker s.resting s.fills k) (rounds asks) (sweep o asks []) h

    sell_fill-All :
        (P : Order → Type 0)
        → ((o : Order) (r : Amount) → P o → P (with_left o r))
        → (taker : Order) (resting : List Order) (fills : List Trade) → All P resting
        → All P (sell_fill symbol clock (sweep taker resting fills)).resting
    unfolding sell_fill
    sell_fill-All P keep taker [] fills h = h
    sell_fill-All P keep taker (best ∷ rest) fills h = put_back-All P _ rest (keep best _ h.0) h.1

    -- What holds of the other side and does not turn on what is left of an order goes on to hold.
    pub match_sell-All :
        (P : Order → Type 0)
        → ((o : Order) (r : Amount) → P o → P (with_left o r))
        → (o : Order) (bids : List Order) → All P bids
        → All P (match_sell symbol clock o bids).resting
    unfolding match_sell
    match_sell-All P keep o bids h =
        while_keeps (λ s. All P s.resting) sell_goes_on (sell_fill symbol clock)
          (λ s k t. sell_fill-All P keep s.taker s.resting s.fills k) (rounds bids)
          (sweep o bids []) h

    sell_fill-taker :
        (o taker : Order) (resting : List Order) (fills : List Trade)
        → IsSame o taker
        → IsSame o (sell_fill symbol clock (sweep taker resting fills)).taker
    unfolding sell_fill
    sell_fill-taker o taker [] fills h = h
    sell_fill-taker o taker (best ∷ rest) fills h =
        ap
          (λ t.
            with_left t (sell_fill symbol clock (sweep taker (best ∷ rest) fills)).taker.remaining)
          h

    -- The loop changes nothing of the incoming order but what is left of it.
    pub match_sell-taker :
        (o : Order) (bids : List Order) → IsSame o (match_sell symbol clock o bids).taker
    unfolding match_sell
    match_sell-taker o bids =
        while_keeps (λ s. IsSame o s.taker) sell_goes_on (sell_fill symbol clock)
          (λ s k t. sell_fill-taker o s.taker s.resting s.fills k) (rounds bids) (sweep o bids [])
          refl

    sell_fill-IsSorted :
        (taker : Order) (resting : List Order) (fills : List Trade)
        → IsSorted bid_before resting
        → IsSorted bid_before (sell_fill symbol clock (sweep taker resting fills)).resting
    unfolding sell_fill bid_before
    sell_fill-IsSorted taker [] fills h = h
    sell_fill-IsSorted taker (best ∷ rest) fills h =
        put_back-IsSorted bid_before (with_left best _) rest h

    -- The other side stays in its order of priority.
    pub match_sell-IsSorted :
        (o : Order) (bids : List Order)
        → IsSorted bid_before bids
        → IsSorted bid_before (match_sell symbol clock o bids).resting
    unfolding match_sell
    match_sell-IsSorted o bids h =
        while_keeps (λ s. IsSorted bid_before s.resting) sell_goes_on (sell_fill symbol clock)
          (λ s k t. sell_fill-IsSorted s.taker s.resting s.fills k) (rounds bids) (sweep o bids [])
          h
