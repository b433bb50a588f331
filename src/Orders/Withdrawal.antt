-- ===== src/Orders/Withdrawal.antt =====
-- `CancelOrder` of packages/orderflow/flow.go.
use crypto_exchange_lab.Prelude.{String, List, Option, none, some, if◌then◌else◌, ◌==◌}
use crypto_exchange_lab.Decimal.{Decimal, Amount, nil, ◌⊖◌, greater}
use crypto_exchange_lab.Errors.{Code, Failure, Result, ok, err, fails, broken}
use crypto_exchange_lab.Stateful.{Stateful, ◌>>=◌, ask, found, anyway}
use crypto_exchange_lab.Hub.Books.{venue_text}
use crypto_exchange_lab.Perps.Client.{send_unfreeze}
use crypto_exchange_lab.Orders.Store.{Order, get_symbol, get_order, cancel_order, is_open}
use crypto_exchange_lab.Orders.Settle.{collateral_for_order}
use crypto_exchange_lab.Orders.Flow.{Engine, Desk, on_account, withdraw, or_zero}

module _ ⦃d : Decimal⦄ where
  abbrev pub not_found : Failure
  not_found = Failure.app (record { code = Code.not_found; message = "order not found" })

  -- The row that `CancelOrder` may cancel.
  unfoldable pub cancellable : Engine → Option Order → Result Order
  unfolding is_open
  cancellable e none = err not_found
  cancellable e (some o) =
      if venue_text o.venue == venue_text e.venue
      then (if is_open o.status then ok o else fails Code.conflict "order not cancellable")
      else err not_found

  -- The collateral of what is left is given back; errors are dropped.
  abbrev pub give_back : Engine → Order → Result (String × Amount) → Stateful {0} Desk Unit
  give_back e o (err f) = ask (λ w. ok tt)
  give_back e o (ok (asset, amt)) =
      if greater amt nil
      then anyway (on_account (send_unfreeze e.ref_type o.user_id asset (d.text amt) o.id))
      else ask (λ w. ok tt)

  abbrev pub cancelled_row : Desk → Option (Order × List Order) → Result Order × Desk
  cancelled_row w none = (broken, w)
  cancelled_row w (some (o, os)) = (ok o, record w { orders = record w.orders { orders = os } })

  -- `CancelOrder`. Without the order's symbol the Go code would panic; the foreign key of the row
  -- rules that out.
  unfoldable pub cancel_open : Engine → String → Stateful Desk Order
  unfolding cancellable withdraw collateral_for_order
  cancel_open e order_id = do
    o ← ask (λ w. cancellable e (get_order order_id w.orders.orders))
    _ ← withdraw e.venue order_id o.symbol
    sym ← ask (λ w. found Failure.plain (get_symbol o.symbol w.orders.symbols))
    _ ←
        give_back e o
          (collateral_for_order o.side sym (o.quantity ⊖ o.filled_qty) (or_zero o.price))
    (λ w. cancelled_row w (cancel_order order_id w.orders.orders))
