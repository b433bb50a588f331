-- ===== src/Orders/Store.antt =====
-- packages/orderstore/store.go on the tables of infra/postgres/migrations (001, 003). A symbol's
-- name stands for its key. The newest row stands first. Users are not looked up, but a trade names
-- orders of the table, as its foreign keys ask.
use crypto_exchange_lab.Prelude.{
  ℕ, zero, Bool, true, false, String, List, [], ◌∷◌, Option, none, some, if◌then◌else◌, ◌==◌, ◌&&◌,
  ◌||◌, not, take, Ordering,
}
use Prim.Native.String.{compare as compare_text}
use crypto_exchange_lab.Sort.{sort_slice}
use crypto_exchange_lab.Decimal.{Decimal, Amount, nil, greater, less}
use crypto_exchange_lab.Exchange.{Side, OrderType, OrderStatus, Venue}
use crypto_exchange_lab.Hub.Books.{venue_text}

-- `Symbol` without its number.
pub record Symbol : Type 0 where
  pub name : String
  pub base_asset : String
  pub quote_asset : String

-- The rows that CANCELLED may follow.
unfoldable pub is_open : OrderStatus → Bool
is_open OrderStatus.new_order = true
is_open OrderStatus.partially_filled = true
is_open OrderStatus.filled = false
is_open OrderStatus.cancelled = false

-- The enumerations `order_side` and `order_type`.
abbrev pub is_side : Side → Bool
is_side (Side.other s) = false
is_side _ = true

abbrev pub is_type : OrderType → Bool
is_type (OrderType.other s) = false
is_type _ = true

module _ ⦃d : Decimal⦄ where
  pub record Order : Type 0 where
    pub id : String
    pub user_id : String
    pub venue : Venue
    pub symbol : String
    pub side : Side
    pub order_type : OrderType
    pub status : OrderStatus
    pub price : Option Amount
    pub quantity : Amount
    pub filled_qty : Amount

  pub record Trade : Type 0 where
    pub id : String
    pub venue : Venue
    pub symbol : String
    pub buy_order_id : String
    pub sell_order_id : String
    pub buyer_user_id : String
    pub seller_user_id : String
    pub price : Amount
    pub quantity : Amount

  pub record OrderTables : Type 0 where
    pub symbols : List Symbol
    pub orders : List Order
    pub trades : List Trade

  abbrev pub name_before : Symbol → Symbol → Bool
  name_before x y = elim (compare_text x.name y.name) [ Ordering.lt ↦ true | _ ↦ false ]

  unfoldable pub names_of : List Symbol → List String
  names_of [] = []
  names_of (s ∷ ss) = s.name ∷ names_of ss

  -- `ListSymbols`.
  unfoldable pub list_symbols : List Symbol → List String
  unfolding names_of sort_slice
  list_symbols ss = names_of (sort_slice name_before ss)

  -- `GetSymbol`.
  unfoldable pub get_symbol : String → List Symbol → Option Symbol
  get_symbol n [] = none
  get_symbol n (s ∷ ss) = if s.name == n then some s else get_symbol n ss

  -- `GetOrder`.
  unfoldable pub get_order : String → List Order → Option Order
  get_order i [] = none
  get_order i (o ∷ os) = if o.id == i then some o else get_order i os

  abbrev pub has_order : String → List Order → Bool
  has_order i [] = false
  has_order i (o ∷ os) = o.id == i || has_order i os

  -- The types and the CHECK constraints of `orders`.
  abbrev pub is_allowed_order : Order → Bool
  is_allowed_order o =
      greater o.quantity nil
      && not (less o.filled_qty nil)
      && is_side o.side
      && is_type o.order_type

  -- `CreateOrder`: an error when a constraint fails or the id is taken.
  unfoldable pub create_order : Order → List Order → Option (List Order)
  create_order o os = if is_allowed_order o && not (has_order o.id os) then some (o ∷ os) else none

  abbrev pub with_fill : Amount → OrderStatus → Order → Order
  with_fill x s o = record o { filled_qty = x; status = s }

  unfoldable pub change_order : String → (Order → Order) → List Order → List Order
  change_order i f [] = []
  change_order i f (o ∷ os) = if o.id == i then f o ∷ os else o ∷ change_order i f os

  -- `UpdateOrderFill`: an unknown id changes nothing, a negative quantity is an error.
  unfoldable pub update_order_fill :
      String → Amount → OrderStatus → List Order → Option (List Order)
  unfolding change_order
  update_order_fill i x s os = if less x nil then none else some (change_order i (with_fill x s) os)

  abbrev pub cancelled : Order → Order
  cancelled o = record o { status = OrderStatus.cancelled }

  abbrev pub open_order : Option Order → Option Order
  open_order none = none
  open_order (some o) = if is_open o.status then some (cancelled o) else none

  -- `CancelOrder`: the row that was cancelled, if it was open.
  unfoldable pub cancel_order : String → List Order → Option (Order × List Order)
  unfolding get_order change_order is_open
  cancel_order i os = elim (open_order (get_order i os)) [
    | none ↦ none
    | some o ↦ some (o, change_order i cancelled os)
  ]

  -- A limit of zero or less is 50.
  abbrev pub limit_or_50 : ℕ → ℕ
  limit_or_50 zero = 50
  limit_or_50 n = n

  abbrev pub same_venue : Venue → Venue → Bool
  same_venue v u = venue_text v == venue_text u

  unfoldable pub orders_of : Venue → String → List Order → List Order
  orders_of v u [] = []
  orders_of v u (o ∷ os) =
      let rest = orders_of v u os in
      if o.user_id == u && same_venue o.venue v then o ∷ rest else rest

  -- `ListOrders`.
  unfoldable pub list_orders : Venue → String → ℕ → List Order → List Order
  unfolding orders_of
  list_orders v u limit os = take (limit_or_50 limit) (orders_of v u os)

  -- `InsertTrade`: an error when a constraint fails.
  unfoldable pub insert_trade : Trade → OrderTables → Option OrderTables
  insert_trade t tables =
      if greater t.quantity nil
        && has_order t.buy_order_id tables.orders
        && has_order t.sell_order_id tables.orders
      then some (record tables { trades = t ∷ tables.trades })
      else none

  unfoldable pub trades_of : Venue → String → List Trade → List Trade
  trades_of v s [] = []
  trades_of v s (t ∷ ts) =
      let rest = trades_of v s ts in
      if t.symbol == s && same_venue t.venue v then t ∷ rest else rest

  -- `ListTrades`.
  unfoldable pub list_trades : Venue → String → ℕ → List Trade → List Trade
  unfolding trades_of
  list_trades v s limit ts = take (limit_or_50 limit) (trades_of v s ts)
