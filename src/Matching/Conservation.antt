-- ===== src/Matching/Conservation.antt =====
-- The matching loops move quantity: none is made and none is lost.
use crypto_exchange_lab.Prelude.{ℕ, ◌≡◌, sym, ap, ◌∙◌, String, List, [], ◌∷◌, arith}
use crypto_exchange_lab.Decimal.{Decimal, Amount, nil, ◌⊕◌, ◌⊖◌}
use crypto_exchange_lab.Decimal.Laws.{
  plus_left_zero, plus_assoc, plus-zero, minus-plus_move, eq_of_cmp,
}
use crypto_exchange_lab.Loop.{while_keeps}
use crypto_exchange_lab.Matching.Book.{Order, Trade}
use crypto_exchange_lab.Matching.Sweep.{
  Sweep, sweep, put_back, buy_goes_on, sell_goes_on, buy_fill, sell_fill, match_buy, match_sell,
  rounds,
}
use crypto_exchange_lab.Matching.Fill.{unless_empty}
use crypto_exchange_lab.Matching.Totals.{total_filled, total_left, total_filled-append}

module _ ⦃d : Decimal⦄ where
  -- An order that is used up is dropped, with nothing left of it.
  total_left-put_back :
      (o : Order) (rest : List Order)
      → total_left (put_back (unless_empty o) rest) ≡ o.remaining ⊕ total_left rest
  unfolding total_left
  total_left-put_back o rest =
      ground (arith, eq_of_cmp o.remaining nil, plus_left_zero (total_left rest))

  -- What the incoming order and the other side had before any fill.
  record IsMoved (had : Amount) (rested : Amount) (s : Sweep) : Type 0 where
    taken : s.taker.remaining ⊕ total_filled s.fills ≡ had
    given : total_left s.resting ⊕ total_filled s.fills ≡ rested

  plus_shift : (b q r f : Amount) → ((b ⊖ q) ⊕ r) ⊕ (f ⊕ q) ≡ (b ⊕ r) ⊕ f
  plus_shift b q r f =
      plus_assoc (b ⊖ q) r (f ⊕ q)
      ∙ ap (λ x. (b ⊖ q) ⊕ x) (sym (plus_assoc r f q))
      ∙ minus-plus_move b (r ⊕ f) q
      ∙ sym (plus_assoc b r f)

  start-IsMoved :
      (o : Order) (os : List Order) → IsMoved o.remaining (total_left os) (sweep o os [])
  unfolding total_filled
  start-IsMoved o os = record { taken = plus-zero o.remaining; given = plus-zero (total_left os) }

  module _ (symbol : String) (clock : ℕ → ℕ) where
    buy_fill-IsMoved :
        (had rested : Amount) (taker : Order) (resting : List Order) (fills : List Trade)
        → IsMoved had rested (sweep taker resting fills)
        → IsMoved had rested (buy_fill symbol clock (sweep taker resting fills))
    unfolding buy_fill total_left
    buy_fill-IsMoved had rested taker [] fills h = h
    buy_fill-IsMoved had rested taker (best ∷ rest) fills h = record {
      taken =
          rw (total_filled-append fills _)
            (minus-plus_move taker.remaining (total_filled fills) _ ∙ h.taken);
      given =
          rw (total_filled-append fills _, total_left-put_back _ rest)
            (plus_shift best.remaining _ (total_left rest) (total_filled fills) ∙ h.given);
    }

    match_buy-IsMoved :
        (o : Order) (asks : List Order)
        → IsMoved o.remaining (total_left asks) (match_buy symbol clock o asks)
    unfolding match_buy
    match_buy-IsMoved o asks =
        while_keeps (IsMoved o.remaining (total_left asks)) buy_goes_on (buy_fill symbol clock)
          (λ s h t. buy_fill-IsMoved o.remaining (total_left asks) s.taker s.resting s.fills h)
          (rounds asks) (sweep o asks []) (start-IsMoved o asks)

    -- What the incoming order lost in `matchBuy` is what was filled.
    pub match_buy-taken :
        (o : Order) (asks : List Order)
        → let s = match_buy symbol clock o asks in
          s.taker.remaining ⊕ total_filled s.fills ≡ o.remaining
    match_buy-taken o asks = (match_buy-IsMoved o asks).taken

    -- What the other side lost in `matchBuy` is what was filled.
    pub match_buy-given :
        (o : Order) (asks : List Order)
        → let s = match_buy symbol clock o asks in
          total_left s.resting ⊕ total_filled s.fills ≡ total_left asks
    match_buy-given o asks = (match_buy-IsMoved o asks).given

    sell_fill-IsMoved :
        (had rested : Amount) (taker : Order) (resting : List Order) (fills : List Trade)
        → IsMoved had rested (sweep taker resting fills)
        → IsMoved had rested (sell_fill symbol clock (sweep taker resting fills))
    unfolding sell_fill total_left
    sell_fill-IsMoved had rested taker [] fills h = h
    sell_fill-IsMoved had rested taker (best ∷ rest) fills h = record {
      taken =
          rw (total_filled-append fills _)
            (minus-plus_move taker.remaining (total_filled fills) _ ∙ h.taken);
      given =
          rw (total_filled-append fills _, total_left-put_back _ rest)
            (plus_shift best.remaining _ (total_left rest) (total_filled fills) ∙ h.given);
    }

    match_sell-IsMoved :
        (o : Order) (bids : List Order)
        → IsMoved o.remaining (total_left bids) (match_sell symbol clock o bids)
    unfolding match_sell
    match_sell-IsMoved o bids =
        while_keeps (IsMoved o.remaining (total_left bids)) sell_goes_on (sell_fill symbol clock)
          (λ s h t. sell_fill-IsMoved o.remaining (total_left bids) s.taker s.resting s.fills h)
          (rounds bids) (sweep o bids []) (start-IsMoved o bids)

    -- What the incoming order lost in `matchSell` is what was filled.
    pub match_sell-taken :
        (o : Order) (bids : List Order)
        → let s = match_sell symbol clock o bids in
          s.taker.remaining ⊕ total_filled s.fills ≡ o.remaining
    match_sell-taken o bids = (match_sell-IsMoved o bids).taken

    -- What the other side lost in `matchSell` is what was filled.
    pub match_sell-given :
        (o : Order) (bids : List Order)
        → let s = match_sell symbol clock o bids in
          total_left s.resting ⊕ total_filled s.fills ≡ total_left bids
    match_sell-given o bids = (match_sell-IsMoved o bids).given
