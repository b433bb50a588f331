-- ===== src/Matching/Book.antt =====
-- Orders, trades and the book, with the comparators of the two sides (book.go).
use crypto_exchange_lab.Prelude.{
  ℕ, Bool, String, List, [], ◌∷◌, ◌++◌, Option, none, some, if◌then◌else◌, ltb, ◌==◌, length, drop,
  ◌-◌, leb,
}
use crypto_exchange_lab.Decimal.{Decimal, Amount, less, greater, equal, is_zero}
use crypto_exchange_lab.Exchange.{Side}
use crypto_exchange_lab.Sort.{sort_slice}

module _ ⦃d : Decimal⦄ where
  pub record Order : Type 0 where
    pub id : String
    pub user_id : String
    pub side : Side
    pub price : Amount
    pub quantity : Amount
    pub remaining : Amount
    pub created_at : ℕ

  pub record Trade : Type 0 where
    pub symbol : String
    pub buy_order_id : String
    pub sell_order_id : String
    pub buyer_user_id : String
    pub seller_user_id : String
    pub price : Amount
    pub quantity : Amount
    pub timestamp : ℕ

  -- Best order first on each side; `trades` oldest first.
  pub record Book : Type 0 where
    pub symbol : String
    pub bids : List Order
    pub asks : List Order
    pub trades : List Trade

  unfoldable pub new_book : String → Book
  new_book s = record { symbol = s; bids = []; asks = []; trades = [] }

  -- A zero price marks a market order.
  abbrev pub is_market : Order → Bool
  is_market o = is_zero o.price

  -- The `less` functions that `insertResting` hands to `sort.Slice`.
  unfoldable pub bid_before : Order → Order → Bool
  bid_before x y =
      if equal x.price y.price then ltb x.created_at y.created_at else greater x.price y.price

  unfoldable pub ask_before : Order → Order → Bool
  ask_before x y =
      if equal x.price y.price then ltb x.created_at y.created_at else less x.price y.price

  -- Every side but BUY rests with the asks.
  unfoldable pub insert_resting : Order → Book → Book
  unfolding sort_slice bid_before ask_before
  insert_resting o b = elim o.side [
    | Side.buy ↦ record b { bids = sort_slice bid_before (b.bids ++ o ∷ []) }
    | _ ↦ record b { asks = sort_slice ask_before (b.asks ++ o ∷ []) }
  ]

  -- The first order with the id is taken out.
  unfoldable pub remove_id : String → List Order → Option (Order × List Order)
  remove_id i [] = none
  remove_id i (o ∷ os) =
      if o.id == i
      then some (o, os)
      else elim (remove_id i os) [ none ↦ none | some (found, rest) ↦ some (found, o ∷ rest) ]

  -- `Cancel`: the bids are searched first.
  unfoldable pub cancel : String → Book → Option Order × Book
  unfolding remove_id
  cancel i b = elim (remove_id i b.bids) [
    | some (o, rest) ↦ (some o, record b { bids = rest })
    | none ↦ elim (remove_id i b.asks) [
      | some (o, rest) ↦ (some o, record b { asks = rest })
      | none ↦ (none, b)
    ]
  ]

  -- `RecentTrades`: the last `limit` trades, and none for a limit of zero.
  unfoldable pub recent_trades : ℕ → Book → List Trade
  recent_trades n b = if leb n 0 then [] else drop (length b.trades - n) b.trades
