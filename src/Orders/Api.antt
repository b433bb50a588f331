-- ===== src/Orders/Api.antt =====
-- packages/orderapi/handler.go on the order flow. A body that is not JSON is `none`; a limit that is
-- no positive number is 0. JSON and the router are not modelled.
use crypto_exchange_lab.Prelude.{String, List, [], Option, none, some, if◌then◌else◌, ◌==◌, map}
use crypto_exchange_lab.Prelude.{ℕ}
use crypto_exchange_lab.Decimal.{Decimal, Amount}
use crypto_exchange_lab.Exchange.{OrderType, OrderStatus}
use crypto_exchange_lab.Errors.{Code, Result, ok, err, reported}
use crypto_exchange_lab.Hub.Books.{venue_text, default_spot_symbols}
use crypto_exchange_lab.Hub.Handler.{side_of}
use crypto_exchange_lab.Orders.Store.{Order, Trade, list_symbols, list_orders, list_trades}
use crypto_exchange_lab.Orders.Flow.{
  Engine, PlaceOrderRequest, Draws, Desk, side_text, type_text, place_order,
}
use crypto_exchange_lab.Orders.Withdrawal.{cancel_open}

pub record PlaceBody : Type 0 where
  pub user_id : String
  pub symbol : String
  pub side : String
  pub type_name : String
  pub price : String
  pub quantity : String

-- `Handler`: its store is the desk's.
pub record Handler : Type 0 where
  pub engine : Engine
  pub service : String
  pub phase : String

pub record OrderResp : Type 0 where
  pub id : String
  pub user_id : String
  pub venue : String
  pub symbol : String
  pub side : String
  pub type_name : String
  pub status : String
  pub quantity : String
  pub filled_qty : String
  pub price : Option String

pub record TradeResp : Type 0 where
  pub id : String
  pub venue : String
  pub symbol : String
  pub buy_order_id : String
  pub sell_order_id : String
  pub price : String
  pub quantity : String

pub data Answer : Type 0 where
  placed : OrderResp → List TradeResp → Answer
  one_order : OrderResp → Answer
  order_list : List OrderResp → Answer
  trade_list : List TradeResp → Answer
  symbol_list : List String → Answer
  venue_info : String → String → String → Answer
  failed : Code → Answer

pub data Request : Type 0 where
  placing : Option PlaceBody → Request
  cancelling : String → Request
  listing_orders : String → ℕ → Request
  listing_trades : String → ℕ → Request
  listing_symbols : Request
  asking_venue : Request

abbrev pub type_of : String → OrderType
type_of s =
    if s == "LIMIT"
    then OrderType.limit
    else if s == "MARKET"
    then OrderType.market
    else OrderType.other s

abbrev pub status_text : OrderStatus → String
status_text OrderStatus.new_order = "NEW"
status_text OrderStatus.partially_filled = "PARTIALLY_FILLED"
status_text OrderStatus.filled = "FILLED"
status_text OrderStatus.cancelled = "CANCELLED"

abbrev pub place_request : PlaceBody → PlaceOrderRequest
place_request body = record {
  user_id = body.user_id;
  symbol = body.symbol;
  side = side_of body.side;
  order_type = type_of body.type_name;
  price = body.price;
  quantity = body.quantity;
}

-- `listSymbols` when the table is empty.
abbrev pub or_default : List String → List String
or_default [] = default_spot_symbols
or_default names = names

module _ ⦃d : Decimal⦄ where
  abbrev pub format_price : Option Amount → Option String
  format_price none = none
  format_price (some p) = some (d.text p)

  -- `formatOrder`.
  abbrev pub format_order : Order → OrderResp
  format_order o = record {
    id = o.id;
    user_id = o.user_id;
    venue = venue_text o.venue;
    symbol = o.symbol;
    side = side_text o.side;
    type_name = type_text o.order_type;
    status = status_text o.status;
    quantity = d.text o.quantity;
    filled_qty = d.text o.filled_qty;
    price = format_price o.price;
  }

  -- `formatTrades`, for one of them.
  abbrev pub format_trade : Trade → TradeResp
  format_trade t = record {
    id = t.id;
    venue = venue_text t.venue;
    symbol = t.symbol;
    buy_order_id = t.buy_order_id;
    sell_order_id = t.sell_order_id;
    price = d.text t.price;
    quantity = d.text t.quantity;
  }

  abbrev pub write {ℓ} : {A : Type ℓ} → (A → Answer) → Result A × Desk → Answer × Desk
  write format (ok a, w) = (format a, w)
  write format (err e, w) = (failed (reported e), w)

  -- `placeOrder` and `cancelOrder`.
  unfoldable pub handle_place : Handler → Draws → Option PlaceBody → Desk → Answer × Desk
  unfolding place_order
  handle_place h draws none w = (failed Code.invalid_argument, w)
  handle_place h draws (some body) w =
      write (λ x. placed (format_order x.0) (map format_trade x.1))
        (place_order h.engine draws (place_request body) w)

  unfoldable pub handle_cancel : Handler → String → Desk → Answer × Desk
  unfolding cancel_open
  handle_cancel h id w = write (λ o. one_order (format_order o)) (cancel_open h.engine id w)

  -- `listOrders`.
  unfoldable pub handle_list_orders : Handler → String → ℕ → Desk → Answer
  unfolding list_orders
  handle_list_orders h user_id limit w =
      if user_id == ""
      then failed Code.invalid_argument
      else order_list (map format_order (list_orders h.engine.venue user_id limit w.orders.orders))

  -- `listTrades`.
  unfoldable pub handle_list_trades : Handler → String → ℕ → Desk → Answer
  unfolding list_trades
  handle_list_trades h symbol limit w =
      trade_list (map format_trade (list_trades h.engine.venue symbol limit w.orders.trades))

  -- The routes of `Register`.
  unfoldable pub serve : Handler → Draws → Request → Desk → Answer × Desk
  unfolding handle_place handle_cancel handle_list_orders handle_list_trades list_symbols
  serve h draws (placing body) w = handle_place h draws body w
  serve h draws (cancelling id) w = handle_cancel h id w
  serve h draws (listing_orders user_id limit) w = (handle_list_orders h user_id limit w, w)
  serve h draws (listing_trades symbol limit) w = (handle_list_trades h symbol limit w, w)
  serve h draws listing_symbols w = (symbol_list (or_default (list_symbols w.orders.symbols)), w)
  serve h draws asking_venue w = (venue_info (venue_text h.engine.venue) h.service h.phase, w)
