-- ===== src/Matching/Keeps.antt =====
-- `Match` keeps the invariant of the book.
use crypto_exchange_lab.Prelude.{
  ℕ, ◌≡◌, refl, sym, ap, ◌∙◌, ◌≢◌, List, [], ◌∷◌, All, All-map, arith, ◌⊎◌, inl, inr,
}
use crypto_exchange_lab.Decimal.{Decimal, ◌≺◌}
use crypto_exchange_lab.Exchange.{Side}
use crypto_exchange_lab.Matching.Book.{Order, Trade, Book}
use crypto_exchange_lab.Matching.Sweep.{
  match_buy, match_sell, record_trades, rest_order, match_order, taken,
}
use crypto_exchange_lab.Matching.Termination.{
  match_buy-AllLive, match_sell-AllLive, match_buy_ends, match_sell_ends,
}
use crypto_exchange_lab.Matching.Frame.{
  match_buy-All, match_sell-All, match_buy-IsSorted, match_sell-IsSorted, match_buy-taker,
  match_sell-taker,
}
use crypto_exchange_lab.Matching.Invariant.{
  IsValid, stopped_below, stopped_above, record_trades-IsValid, insert_resting_buy-IsValid,
  insert_resting_sell-IsValid, rest_order-IsValid,
}

module _ ⦃d : Decimal⦄ where
  taken-side : (o : Order) → (taken o).side ≡ o.side
  taken-side o = ground arith

  pub record_trades_asks :
      (ts : List Trade) (b : Book) (P : List Order → Type 0)
      → P b.asks
      → P (record_trades ts b).asks
  record_trades_asks [] b P h = h
  record_trades_asks (t ∷ ts) b P h = h

  pub record_trades_bids :
      (ts : List Trade) (b : Book) (P : List Order → Type 0)
      → P b.bids
      → P (record_trades ts b).bids
  record_trades_bids [] b P h = h
  record_trades_bids (t ∷ ts) b P h = h

  abbrev pub after_buy : (ℕ → ℕ) → Order → Book → Book
  after_buy clock o b = record b { asks = (match_buy b.symbol clock (taken o) b.asks).resting }

  pub match_order_buy :
      (clock : ℕ → ℕ) (o : Order) (b : Book)
      → o.side ≡ Side.buy
      → let s = match_buy b.symbol clock (taken o) b.asks in
        match_order clock o b
        ≡ rest_order s.fills s.taker (record_trades s.fills (after_buy clock o b))
  unfolding match_order
  match_order_buy clock o b e = ground arith

  after_buy-IsValid :
      (clock : ℕ → ℕ) (o : Order) (b : Book) → IsValid b → IsValid (after_buy clock o b)
  after_buy-IsValid clock o b v = record {
    live_bids = v.live_bids;
    live_asks = match_buy-AllLive b.symbol clock (taken o) b.asks v.live_asks;
    sorted_bids = v.sorted_bids;
    sorted_asks = match_buy-IsSorted b.symbol clock (taken o) b.asks v.sorted_asks;
    uncrossed =
        All-map
          (λ bid k.
            match_buy-All b.symbol clock (λ ask. bid.price ≺ ask.price) (λ p r h. h) (taken o)
              b.asks k)
          b.bids v.uncrossed;
  }

  match_buy_order-IsValid :
      (clock : ℕ → ℕ) (o : Order) (b : Book)
      → o.side ≡ Side.buy
      → IsValid b
      → IsValid (match_order clock o b).2
  match_buy_order-IsValid clock o b e v =
      let s = match_buy b.symbol clock (taken o) b.asks in
      let same = match_buy-taker b.symbol clock (taken o) b.asks in
      let v1 = after_buy-IsValid clock o b v in
      let b1 = record_trades s.fills (after_buy clock o b) in
      let side : s.taker.side ≡ Side.buy = ap (λ t. t.side) same ∙ taken-side o ∙ e in
      rw (match_order_buy clock o b e) (
        rest_order-IsValid s.fills s.taker b1
          (record_trades-IsValid s.fills (after_buy clock o b) v1)
          λ live.
            insert_resting_buy-IsValid s.taker b1 side live
              (record_trades_asks s.fills (after_buy clock o b)
                (λ asks. All (λ ask. s.taker.price ≺ ask.price) asks)
                (stopped_below s.taker s.resting s.fills live
                  (match_buy-IsSorted b.symbol clock (taken o) b.asks v.sorted_asks)
                  (match_buy_ends b.symbol clock (taken o) b.asks v.live_asks)))
              (record_trades-IsValid s.fills (after_buy clock o b) v1))

  abbrev pub after_sell : (ℕ → ℕ) → Order → Book → Book
  after_sell clock o b = record b { bids = (match_sell b.symbol clock (taken o) b.bids).resting }

  pub match_order_sell :
      (clock : ℕ → ℕ) (o : Order) (b : Book)
      → o.side ≢ Side.buy
      → let s = match_sell b.symbol clock (taken o) b.bids in
        match_order clock o b
        ≡ rest_order s.fills s.taker (record_trades s.fills (after_sell clock o b))
  unfolding match_order
  match_order_sell clock o b e = ground arith

  after_sell-IsValid :
      (clock : ℕ → ℕ) (o : Order) (b : Book) → IsValid b → IsValid (after_sell clock o b)
  after_sell-IsValid clock o b v = record {
    live_bids = match_sell-AllLive b.symbol clock (taken o) b.bids v.live_bids;
    live_asks = v.live_asks;
    sorted_bids = match_sell-IsSorted b.symbol clock (taken o) b.bids v.sorted_bids;
    sorted_asks = v.sorted_asks;
    uncrossed =
        match_sell-All b.symbol clock (λ bid. All (λ ask. bid.price ≺ ask.price) b.asks)
          (λ p r h. h) (taken o) b.bids v.uncrossed;
  }

  match_sell_order-IsValid :
      (clock : ℕ → ℕ) (o : Order) (b : Book)
      → o.side ≢ Side.buy
      → IsValid b
      → IsValid (match_order clock o b).2
  match_sell_order-IsValid clock o b e v =
      let s = match_sell b.symbol clock (taken o) b.bids in
      let same = match_sell-taker b.symbol clock (taken o) b.bids in
      let v1 = after_sell-IsValid clock o b v in
      let b1 = record_trades s.fills (after_sell clock o b) in
      let side : s.taker.side ≢ Side.buy =
        λ k. e (sym (ap (λ t. t.side) same ∙ taken-side o) ∙ k) in
      rw (match_order_sell clock o b e) (
        rest_order-IsValid s.fills s.taker b1
          (record_trades-IsValid s.fills (after_sell clock o b) v1)
          λ live.
            insert_resting_sell-IsValid s.taker b1 side live
              (record_trades_bids s.fills (after_sell clock o b)
                (λ bids. All (λ bid. bid.price ≺ s.taker.price) bids)
                (stopped_above s.taker s.resting s.fills live
                  (match_sell-IsSorted b.symbol clock (taken o) b.bids v.sorted_bids)
                  (match_sell_ends b.symbol clock (taken o) b.bids v.live_bids)))
              (record_trades-IsValid s.fills (after_sell clock o b) v1))

  Side-buy : (s : Side) → (s ≡ Side.buy) ⊎ (s ≢ Side.buy)
  Side-buy Side.buy = inl refl
  Side-buy Side.sell = inr (λ e. cc)
  Side-buy (Side.other x) = inr (λ e. cc)

  -- `Match` takes a valid book to a valid book, whatever the incoming order: what rests is live
  -- and in its order of priority, and no bid reaches an ask.
  pub match_order-IsValid :
      (clock : ℕ → ℕ) (o : Order) (b : Book) → IsValid b → IsValid (match_order clock o b).2
  match_order-IsValid clock o b v = elim (Side-buy o.side) [
    | inl e ↦ match_buy_order-IsValid clock o b e v
    | inr e ↦ match_sell_order-IsValid clock o b e v
  ]
