-- ===== src/Orders/Flow.antt =====
-- packages/orderflow/flow.go, but for its `CancelOrder`, on the state of the three services that it
-- calls, with the requests of packages/tradeclients/matching.go. An error leaves what was written
-- before it. The uuids that a call draws are its arguments.
use crypto_exchange_lab.Prelude.{
  ℕ, Bool, true, false, String, List, [], ◌∷◌, ◌++◌, Option, none, some, if◌then◌else◌, ◌==◌, ◌||◌,
  ◌&&◌, not, length,
}
use crypto_exchange_lab.Decimal.{
  Decimal, Amount, nil, ◌⊕◌, ◌⊖◌, is_zero, less, less_or_equal, greater, greater_or_equal,
}
use crypto_exchange_lab.Exchange.{Side, OrderType, OrderStatus, Venue}
use crypto_exchange_lab.Errors.{Code, Failure, Result, ok, err, fails, broken}
use crypto_exchange_lab.Stateful.{Stateful, ◌>>=◌, ask, found, anyway, or_undo, within, update}
use crypto_exchange_lab.Account.Store.{Tables}
use crypto_exchange_lab.Account.Handler.{parse}
use crypto_exchange_lab.Hub.Books.{venue_text}
use crypto_exchange_lab.Hub.Handler.{
  Times, SubmitReq, TradeResp, Server, Answer, submit_order, cancel_order as remove_order,
}
use crypto_exchange_lab.Perps.Client.{send_freeze, send_unfreeze}
use crypto_exchange_lab.Orders.Store.{
  Symbol, Order, Trade, OrderTables, get_symbol, get_order, create_order, update_order_fill,
  insert_trade,
}
use crypto_exchange_lab.Orders.Settle.{MatchTrade, collateral_for_order, settle_match}

-- The venue of an engine and its type of reference.
pub record Engine : Type 0 where
  pub venue : Venue
  pub ref_type : String

pub record PlaceOrderRequest : Type 0 where
  pub user_id : String
  pub symbol : String
  pub side : Side
  pub order_type : OrderType
  pub price : String
  pub quantity : String

-- What a call draws: the order's uuid, those of its settlements and of its trade rows, and times.
pub record Draws : Type 0 where
  pub order_id : String
  pub trade_id : ℕ → String
  pub row_id : ℕ → String
  pub times : Times

-- A match without a resting part when `resting` is false.
pub record MatchResult : Type 0 where
  pub trades : List MatchTrade
  pub resting : Bool

abbrev pub side_text : Side → String
side_text Side.buy = "BUY"
side_text Side.sell = "SELL"
side_text (Side.other s) = s

abbrev pub type_text : OrderType → String
type_text OrderType.limit = "LIMIT"
type_text OrderType.market = "MARKET"
type_text (OrderType.other s) = s

abbrev pub is_market_type : OrderType → Bool
is_market_type OrderType.market = true
is_market_type _ = false

abbrev pub match_trades : List TradeResp → List MatchTrade
match_trades [] = []
match_trades (t ∷ ts) =
    record {
      id = t.id;
      symbol = t.symbol;
      buy_order_id = t.buy_order_id;
      sell_order_id = t.sell_order_id;
      buyer_user_id = t.buyer_user_id;
      seller_user_id = t.seller_user_id;
      price = t.price;
      quantity = t.quantity;
    }
    ∷ match_trades ts

abbrev pub is_some {ℓ} : {A : Type ℓ} → Option A → Bool
is_some none = false
is_some (some a) = true

module _ ⦃d : Decimal⦄ where
  -- The state of account-service, the matching engine and the order tables.
  pub record Desk : Type 0 where
    pub account : Tables
    pub server : Server
    pub orders : OrderTables

  abbrev pub on_account : (Tables → Result Tables) → Stateful {0} Desk Unit
  on_account = within (λ (w : Desk). w.account) (λ t w. record w { account = t })

  -- What the matching client makes of the answer to an order: no other answer comes.
  abbrev pub match_result : Answer → Result MatchResult
  match_result (Answer.matched venue trades resting) =
      ok (record { trades = match_trades trades; resting = is_some resting })
  match_result (Answer.failed c) = fails c ""
  match_result _ = broken

  -- `MatchingClient.SubmitOrder`.
  unfoldable pub submit : Times → SubmitReq → Stateful Desk MatchResult
  submit times req w =
      let (a, after) = submit_order times (some req) "" w.server in
      (match_result a, record w { server = after })

  -- `MatchingClient.CancelOrder`, whose error its caller drops.
  unfoldable pub withdraw : Venue → String → String → Stateful {0} Desk Unit
  withdraw venue id symbol w =
      (ok tt, record w { server = (remove_order id symbol (venue_text venue) w.server).1 })

  abbrev pub kept_rows : Option (List Order) → Result (List Order)
  kept_rows none = broken
  kept_rows (some os) = ok os

  abbrev pub on_orders : (List Order → Option (List Order)) → Stateful {0} Desk Unit
  on_orders call =
      within (λ (w : Desk). w.orders.orders)
        (λ os w. record w { orders = record w.orders { orders = os } }) (λ os. kept_rows (call os))

  abbrev pub invalid : String → Failure
  invalid message = Failure.app (record { code = Code.invalid_argument; message = message })

  -- A market order has the price zero; another must have a positive one.
  unfoldable pub order_price : PlaceOrderRequest → Result Amount
  order_price req = if is_market_type req.order_type then ok nil else (elim (d.of_text req.price) [
    | none ↦ err (invalid "invalid price")
    | some p ↦ if less_or_equal p nil then err (invalid "invalid price") else ok p
  ])

  abbrev pub stored_price : PlaceOrderRequest → Amount → Option Amount
  stored_price req price = if is_market_type req.order_type then none else some price

  abbrev pub new_order : Engine → PlaceOrderRequest → String → Symbol → Amount → Amount → Order
  new_order e req id sym qty price = record {
    id = id;
    user_id = req.user_id;
    venue = e.venue;
    symbol = sym.name;
    side = req.side;
    order_type = req.order_type;
    status = OrderStatus.new_order;
    price = stored_price req price;
    quantity = qty;
    filled_qty = nil;
  }

  abbrev pub submit_req : Engine → PlaceOrderRequest → String → Symbol → Amount → Amount → SubmitReq
  submit_req e req id sym qty price = record {
    venue = venue_text e.venue;
    order_id = id;
    user_id = req.user_id;
    symbol = sym.name;
    side = side_text req.side;
    type_name = type_text req.order_type;
    price = if is_market_type req.order_type then "0" else d.text price;
    quantity = d.text qty;
  }

  abbrev pub or_zero : Option Amount → Amount
  or_zero none = nil
  or_zero (some x) = x

  -- The status of an order of which `filled` is done.
  abbrev pub fill_status : Amount → Amount → OrderStatus
  fill_status filled quantity =
      if greater_or_equal filled quantity then OrderStatus.filled else OrderStatus.partially_filled

  -- A fill of another order is added to its row; errors are dropped.
  unfoldable pub note_fill : Amount → Option Order → List Order → List Order
  note_fill q none os = os
  note_fill q (some co) os =
      elim (update_order_fill co.id (co.filled_qty ⊕ q)
        (fill_status (co.filled_qty ⊕ q) co.quantity) os) [ none ↦ os | some after ↦ after ]

  unfoldable pub note_maker : String → Amount → String → List Order → List Order
  unfolding note_fill get_order
  note_maker order_id q oid os = if oid == order_id then os else note_fill q (get_order oid os) os

  unfoldable pub note_makers : String → Amount → MatchTrade → Stateful {0} Desk Unit
  unfolding note_maker
  note_makers order_id q mt = update (λ w. record w {
    orders = record w.orders {
      orders =
          note_maker order_id q mt.sell_order_id
            (note_maker order_id q mt.buy_order_id w.orders.orders);
    };
  })

  abbrev pub trade_row : Engine → Symbol → MatchTrade → String → Trade
  trade_row e sym mt id = record {
    id = id;
    venue = e.venue;
    symbol = sym.name;
    buy_order_id = mt.buy_order_id;
    sell_order_id = mt.sell_order_id;
    buyer_user_id = mt.buyer_user_id;
    seller_user_id = mt.seller_user_id;
    price = or_zero (d.of_text mt.price);
    quantity = or_zero (d.of_text mt.quantity);
  }

  abbrev pub kept_tables : Option OrderTables → Result OrderTables
  kept_tables none = broken
  kept_tables (some t) = ok t

  abbrev pub set_orders : OrderTables → Desk → Desk
  set_orders tables w = record w { orders = tables }

  -- `InsertTrade`, with its error.
  unfoldable pub record_trade : Trade → Stateful {0} Desk Unit
  record_trade t =
      within (λ (w : Desk). w.orders) set_orders (λ tables. kept_tables (insert_trade t tables))

  abbrev pub is_party : String → MatchTrade → Bool
  is_party order_id mt = mt.buy_order_id == order_id || mt.sell_order_id == order_id

  -- The loop of `PlaceOrder` over the matches, with what is filled and recorded so far.
  unfoldable pub settle_all :
      Engine
      → Draws
      → Symbol
      → List MatchTrade
      → Amount
      → List Trade
      → Stateful Desk (Amount × List Trade)
  unfolding settle_match record_trade note_makers
  settle_all e draws sym [] filled recorded = ask (λ w. ok (filled, recorded))
  settle_all e draws sym (mt ∷ rest) filled recorded = do
    let row = trade_row e sym mt (draws.row_id (length recorded))
    _ ← on_account (settle_match (draws.trade_id (length recorded)) sym mt)
    _ ← record_trade row
    _ ← note_makers draws.order_id row.quantity mt
    settle_all e draws sym rest
        (if is_party draws.order_id mt then filled ⊕ row.quantity else filled)
        (recorded ++ row ∷ [])

  -- The status that `PlaceOrder` writes, by the three tests one after the other.
  unfoldable pub final_status : Bool → Amount → Amount → OrderStatus
  final_status resting filled qty =
      let first =
        if greater filled nil then OrderStatus.partially_filled else OrderStatus.new_order in
      let second = if greater_or_equal filled qty then OrderStatus.filled else first in
      if not resting && less filled qty && is_zero filled then OrderStatus.cancelled else second

  -- The end of `releaseRemainingFreeze`: a missing row is an error.
  unfoldable pub unfreeze_order : Engine → String → String → Amount → Stateful {0} Desk Unit
  unfolding get_order
  unfreeze_order e order_id asset amt = do
    o ← ask (λ w. found Failure.plain (get_order order_id w.orders.orders))
    on_account (send_unfreeze e.ref_type o.user_id asset (d.text amt) order_id)

  abbrev pub release_collateral :
      Engine → String → Result (String × Amount) → Stateful {0} Desk Unit
  release_collateral e order_id (err f) = ask (λ w. err f)
  release_collateral e order_id (ok (asset, amt)) =
      if is_zero amt then ask (λ w. ok tt) else unfreeze_order e order_id asset amt

  -- `releaseRemainingFreeze`.
  unfoldable pub release_remaining :
      Engine → Side → Symbol → String → Amount → Amount → Amount → Stateful {0} Desk Unit
  unfolding collateral_for_order unfreeze_order
  release_remaining e side sym order_id qty price filled =
      if less_or_equal (qty ⊖ filled) nil
      then ask (λ w. ok tt)
      else release_collateral e order_id (collateral_for_order side sym (qty ⊖ filled) price)

  abbrev pub release_unless : Bool → Stateful {0} Desk Unit → Stateful {0} Desk Unit
  release_unless true release = ask (λ w. ok tt)
  release_unless false release = release

  -- `PlaceOrder`.
  unfoldable pub place_order :
      Engine → Draws → PlaceOrderRequest → Stateful Desk (Order × List Trade)
  unfolding settle_all release_remaining submit
  place_order e draws req = do
    sym ← ask (λ w. found (invalid "unknown symbol") (get_symbol req.symbol w.orders.symbols))
    qty ← ask (λ w. parse req.quantity)
    price ← ask (λ w. order_price req)
    c ← ask (λ w. collateral_for_order req.side sym qty price)
    _ ← on_account (send_freeze e.ref_type req.user_id c.0 (d.text c.1) draws.order_id)
    let undo = on_account (send_unfreeze e.ref_type req.user_id c.0 (d.text c.1) draws.order_id)
    _ ← or_undo (on_orders (create_order (new_order e req draws.order_id sym qty price))) undo
    res ← or_undo (submit draws.times (submit_req e req draws.order_id sym qty price)) undo
    done ← settle_all e draws sym res.trades nil []
    _ ←
        anyway (
          on_orders (update_order_fill draws.order_id done.0 (final_status res.resting done.0 qty)))
    _ ←
        release_unless res.resting
          (release_remaining e req.side sym draws.order_id qty price done.0)
    o ← ask (λ w. found Failure.plain (get_order draws.order_id w.orders.orders))
    ask (λ w. ok (o, done.1))
