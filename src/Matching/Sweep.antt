-- ===== src/Matching/Sweep.antt =====
-- `matchBuy`, `matchSell` and `Match` of book.go.
use crypto_exchange_lab.Prelude.{
  ℕ, Bool, false, String, List, [], ◌∷◌, ◌++◌, Option, none, some, if◌then◌else◌, ◌+◌, ◌-◌, ◌&&◌,
  not, ltb, length, drop,
}
use crypto_exchange_lab.Decimal.{Decimal, nil, less, greater, is_zero}
use crypto_exchange_lab.Exchange.{Side}
use crypto_exchange_lab.Loop.{while}
use crypto_exchange_lab.Matching.Book.{Order, Trade, Book, is_market, insert_resting}
use crypto_exchange_lab.Matching.Fill.{fill_against}

module _ ⦃d : Decimal⦄ where
  -- The variables of a matching loop: the incoming order, the opposite side and the fills so far.
  pub record Sweep : Type 0 where
    pub taker : Order
    pub resting : List Order
    pub fills : List Trade

  abbrev pub sweep : Order → List Order → List Trade → Sweep
  sweep o resting fills = record { taker = o; resting = resting; fills = fills }

  -- Each round empties the best order or the incoming one, so this fuel is enough.
  abbrev pub rounds : List Order → ℕ
  rounds resting = length resting + 2

  abbrev pub put_back : Option Order → List Order → List Order
  put_back none rest = rest
  put_back (some o) rest = o ∷ rest

  -- The loop's condition together with the `break` on the limit price.
  unfoldable pub buy_goes_on : Sweep → Bool
  buy_goes_on s = elim s.resting [
    | [] ↦ false
    | best ∷ rest ↦
        greater s.taker.remaining nil
        && not (not (is_market s.taker) && less s.taker.price best.price)
  ]

  unfoldable pub sell_goes_on : Sweep → Bool
  sell_goes_on s = elim s.resting [
    | [] ↦ false
    | best ∷ rest ↦
        greater s.taker.remaining nil
        && not (not (is_market s.taker) && greater s.taker.price best.price)
  ]

  module _ (symbol : String) (clock : ℕ → ℕ) where
    unfoldable pub buy_fill : Sweep → Sweep
    unfolding fill_against
    buy_fill s = elim s.resting [
      | [] ↦ s
      | best ∷ rest ↦
          let (fill, fr) = fill_against symbol (clock (length s.fills)) s.taker best in
          record {
            taker = fr.buyer;
            resting = put_back fr.ask_remaining rest;
            fills = s.fills ++ fill ∷ [];
          }
    ]

    unfoldable pub sell_fill : Sweep → Sweep
    unfolding fill_against
    sell_fill s = elim s.resting [
      | [] ↦ s
      | best ∷ rest ↦
          let (fill, fr) = fill_against symbol (clock (length s.fills)) best s.taker in
          record {
            taker = fr.seller;
            resting = put_back fr.bid_remaining rest;
            fills = s.fills ++ fill ∷ [];
          }
    ]

    unfoldable pub match_buy : Order → List Order → Sweep
    unfolding while buy_goes_on buy_fill
    match_buy o asks = while buy_goes_on buy_fill (rounds asks) (sweep o asks [])

    unfoldable pub match_sell : Order → List Order → Sweep
    unfolding while sell_goes_on sell_fill
    match_sell o bids = while sell_goes_on sell_fill (rounds bids) (sweep o bids [])

  -- The last 500 trades are kept.
  unfoldable pub keep_recent : List Trade → List Trade
  keep_recent ts = if ltb 500 (length ts) then drop (length ts - 500) ts else ts

  abbrev pub record_trades : List Trade → Book → Book
  record_trades [] b = b
  record_trades (t ∷ ts) b = record b { trades = keep_recent (b.trades ++ t ∷ ts) }

  abbrev pub taken : Order → Order
  taken o = if is_zero o.remaining then record o { remaining = o.quantity } else o

  -- What is left of a limit order rests in the book; `none` is the nil that `Match` returns.
  unfoldable pub rest_order : List Trade → Order → Book → List Trade × Option Order × Book
  rest_order fills o b =
      if greater o.remaining nil && not (is_market o)
      then (fills, some o, insert_resting o b)
      else (fills, none, b)

  -- `Match`.
  unfoldable pub match_order : (ℕ → ℕ) → Order → Book → List Trade × Option Order × Book
  match_order clock o b = elim o.side [
    | Side.buy ↦
        let s = match_buy b.symbol clock (taken o) b.asks in
        rest_order s.fills s.taker (record_trades s.fills (record b { asks = s.resting }))
    | _ ↦
        let s = match_sell b.symbol clock (taken o) b.bids in
        rest_order s.fills s.taker (record_trades s.fills (record b { bids = s.resting }))
  ]
