-- ===== src/Orders/Keeping.antt =====
-- The order flow on the state of its three services: what it keeps, errors included.
use crypto_exchange_lab.Prelude.{
  ◌≡◌, refl, sym, subst, String, List, Option, none, some, ◌==◌, arith, inl, inr, Bool-cases,
  Option-cases,
}
use crypto_exchange_lab.Decimal.{Decimal, Amount, ◌⊕◌}
use crypto_exchange_lab.Exchange.{Venue}
use crypto_exchange_lab.Errors.{Result, ok}
use crypto_exchange_lab.Stateful.{Keeps, within-Keeps, update-Keeps}
use crypto_exchange_lab.Account.Store.{Tables}
use crypto_exchange_lab.Account.Soundness.{IsSound}
use crypto_exchange_lab.Hub.Quoted.{AllValid}
use crypto_exchange_lab.Hub.Handler.{
  Times, SubmitReq, submitting, cancelling, handle, submit_order, cancel_order as remove_order,
}
use crypto_exchange_lab.Hub.Books.{venue_text}
use crypto_exchange_lab.Hub.Serving.{handle-IsFine}
use crypto_exchange_lab.Perps.Posted.{KeepsTables}
use crypto_exchange_lab.Orders.Store.{
  get_order, Order, Trade, OrderTables, update_order_fill, insert_trade,
}
use crypto_exchange_lab.Orders.Settle.{MatchTrade}
use crypto_exchange_lab.Orders.Flow.{
  fill_status, Engine, Draws, PlaceOrderRequest, Desk, on_account, submit, withdraw, on_orders,
  kept_rows, kept_tables, set_orders, note_fill, note_maker, note_makers, record_trade, place_order,
}
use crypto_exchange_lab.Orders.Kept.{IsKept, place_order-Keeps}
use crypto_exchange_lab.Orders.Rows.{AreRows, create_order-AreRows, update_order_fill-AreRows}

module _ ⦃d : Decimal⦄ where
  -- The accounts are sound, every book is valid and the order table keeps its constraints.
  pub record IsFine (w : Desk) : Type 0 where
    pub accounts : IsSound w.account
    pub books : AllValid w.server.hub.books
    pub rows : AreRows w.orders.orders

  pub on_account-Keeps :
      (f : Tables → Result Tables) → KeepsTables IsSound f → Keeps IsFine (on_account f)
  on_account-Keeps f h =
      within-Keeps IsFine _ _ f
        λ w t e s. record { accounts = h w.account t e s.accounts; books = s.books; rows = s.rows }

  submit-Keeps : (times : Times) (req : SubmitReq) → Keeps IsFine (submit times req)
  unfolding submit submit_order handle
  submit-Keeps times req = record {
    keeps = λ w s. record {
      accounts = s.accounts;
      books = handle-IsFine times (submitting (some req) "") w.server s.books;
      rows = s.rows;
    };
  }

  pub withdraw-Keeps : (v : Venue) (id symbol : String) → Keeps IsFine (withdraw v id symbol)
  unfolding withdraw remove_order handle
  withdraw-Keeps v id symbol = record {
    keeps = λ w s. record {
      accounts = s.accounts;
      books = handle-IsFine times (cancelling id symbol (venue_text v)) w.server s.books;
      rows = s.rows;
    };
  }
    where
      times : Times
      times = record { now = 0; clock = λ n. n; rfc3339 = λ n. ""; rfc3339_nano = λ n. "" }

  kept_rows_ok : (r : Option (List Order)) (os : List Order) → kept_rows r ≡ ok os → r ≡ some os
  kept_rows_ok none os h = absurd cc
  kept_rows_ok (some rs) os h = ground arith

  on_orders-Keeps :
      (call : List Order → Option (List Order))
      → ((os after : List Order) → call os ≡ some after → AreRows os → AreRows after)
      → Keeps IsFine (on_orders call)
  on_orders-Keeps call h =
      within-Keeps IsFine _ _ (λ os. kept_rows (call os))
        λ w os e s. record {
          accounts = s.accounts;
          books = s.books;
          rows = h w.orders.orders os (kept_rows_ok (call w.orders.orders) os e) s.rows;
        }

  note_fill-AreRows :
      (q : Amount) (o : Option Order) (os : List Order) → AreRows os → AreRows (note_fill q o os)
  unfolding note_fill
  note_fill-AreRows q none os r = r
  note_fill-AreRows q (some co) os r =
      elim (Option-cases (
        update_order_fill co.id (co.filled_qty ⊕ q) (fill_status (co.filled_qty ⊕ q) co.quantity)
          os)) [
            | inl e ↦ rw (e, note_fill) r
            | inr (after, e) ↦
                rw (e, note_fill)
                  (update_order_fill-AreRows co.id (co.filled_qty ⊕ q)
                    (fill_status (co.filled_qty ⊕ q) co.quantity) os after e r)
          ]

  note_maker-AreRows :
      (i : String) (q : Amount) (oid : String) (os : List Order)
      → AreRows os
      → AreRows (note_maker i q oid os)
  unfolding note_maker
  note_maker-AreRows i q oid os r = elim (Bool-cases (oid == i)) [
    | inl e ↦ rw (e, note_maker) r
    | inr e ↦ rw (e, note_maker) (note_fill-AreRows q (get_order oid os) os r)
  ]

  note_makers-Keeps :
      (i : String) (q : Amount) (mt : MatchTrade) → Keeps IsFine (note_makers i q mt)
  unfolding note_makers
  note_makers-Keeps i q mt = update-Keeps IsFine _ λ w s. record {
    accounts = s.accounts;
    books = s.books;
    rows =
        note_maker-AreRows i q mt.sell_order_id _
          (note_maker-AreRows i q mt.buy_order_id w.orders.orders s.rows);
  }

  pub insert_trade-orders :
      (t : Trade) (tables after : OrderTables)
      → kept_tables (insert_trade t tables) ≡ ok after
      → after.orders ≡ tables.orders
  unfolding insert_trade
  insert_trade-orders t tables after h = ground arith

  record_trade-Keeps : (t : Trade) → Keeps IsFine (record_trade t)
  unfolding record_trade
  record_trade-Keeps t =
      within-Keeps IsFine (λ (w : Desk). w.orders) set_orders
        (λ tables. kept_tables (insert_trade t tables))
        λ w tables e s. record {
          accounts = s.accounts;
          books = s.books;
          rows = subst AreRows (sym (insert_trade-orders t w.orders tables e)) s.rows;
        }

  -- The calls of `PlaceOrder` keep all three services in order.
  order_flow-IsKept : (e : Engine) (id : String) → IsKept IsFine e id
  order_flow-IsKept e id = record {
    posted = on_account-Keeps;
    sent = λ times req v. submit-Keeps times req;
    traded = record_trade-Keeps;
    noted = note_makers-Keeps id;
  }

  -- Placing an order keeps all three services in order, whatever is asked for and wherever it
  -- fails: sound accounts stay sound, valid books valid, and the order table keeps its constraints.
  pub place_order-IsFine :
      (e : Engine) (draws : Draws) (req : PlaceOrderRequest) (w : Desk)
      → IsFine w
      → IsFine (place_order e draws req w).1
  place_order-IsFine e draws req w s =
      (place_order-Keeps IsFine e draws.order_id (order_flow-IsKept e draws.order_id) draws req refl
          (λ o. on_orders-Keeps _ (create_order-AreRows o))
          λ x st. on_orders-Keeps _ (update_order_fill-AreRows draws.order_id x st)).keeps
        w s
