-- ===== src/Orders/Released.antt =====
-- `CancelOrder` and a property of the three services: what each of its calls keeps, it keeps.
use crypto_exchange_lab.Prelude.{◌≡◌, refl, String, List, Option, none, some, inl, inr, Bool-cases}
use crypto_exchange_lab.Decimal.{Decimal, Amount, nil, greater}
use crypto_exchange_lab.Errors.{Result, ok, err}
use crypto_exchange_lab.Stateful.{Keeps, bind-Keeps, ask-Keeps, anyway-Keeps}
use crypto_exchange_lab.Account.Soundness.{IsSound}
use crypto_exchange_lab.Perps.Posted.{post-IsSound, send_unfreeze-KeepsTables}
use crypto_exchange_lab.Perps.Client.{send_unfreeze}
use crypto_exchange_lab.Orders.Store.{Order, cancel_order}
use crypto_exchange_lab.Orders.Flow.{Engine, Desk, on_account, withdraw}
use crypto_exchange_lab.Orders.Withdrawal.{give_back, cancelled_row, cancel_open}
use crypto_exchange_lab.Orders.Rows.{cancel_order-AreRows}
use crypto_exchange_lab.Orders.Keeping.{IsFine, on_account-Keeps, withdraw-Keeps}

module _ ⦃d : Decimal⦄ where
  -- The table of orders in place of the old one.
  abbrev pub with_rows : List Order → Desk → Desk
  with_rows os w = record w { orders = record w.orders { orders = os } }

  module _ (Fine : Desk → Type 0) (e : Engine) (i : String) where
    pub record IsReleased : Type 0 where
      pub unfrozen : (u a x i : String) → Keeps Fine (on_account (send_unfreeze e.ref_type u a x i))
      pub withdrawn : (symbol : String) → Keeps Fine (withdraw e.venue i symbol)
      pub cancelled :
          (w : Desk) (o : Order) (os : List Order)
          → cancel_order i w.orders.orders ≡ some (o, os)
          → Fine w
          → Fine (with_rows os w)

    module _ (kept : IsReleased) where
      give_back-Keeps : (o : Order) (r : Result (String × Amount)) → Keeps Fine (give_back e o r)
      give_back-Keeps o (err f) = ask-Keeps Fine _
      give_back-Keeps o (ok (asset, amt)) = elim (Bool-cases (greater amt nil)) [
        | inl z ↦ rw z (anyway-Keeps Fine _ (kept.unfrozen _ _ _ _))
        | inr z ↦ rw z (ask-Keeps Fine _)
      ]

      cancelled_row-Fine :
          (w : Desk) (r : Option (Order × List Order))
          → ((o : Order) (os : List Order) → r ≡ some (o, os) → Fine (with_rows os w))
          → Fine w
          → Fine (cancelled_row w r).1
      cancelled_row-Fine w none h s = s
      cancelled_row-Fine w (some (o, os)) h s = h o os refl

      pub cancel_open-Keeps : Keeps Fine (cancel_open e i)
      unfolding cancel_open
      cancel_open-Keeps = bind-Keeps Fine _ _ (ask-Keeps Fine _) λ o.
          bind-Keeps Fine _ _ (kept.withdrawn o.symbol) λ u1.
            bind-Keeps Fine _ _ (ask-Keeps Fine _) λ sym.
              bind-Keeps Fine _ _ (give_back-Keeps o _) λ u2. record {
                keeps = λ w s.
                    cancelled_row-Fine w (cancel_order i w.orders.orders)
                      (λ o' os h. kept.cancelled w o' os h s) s;
              }

  -- Cancelling an order keeps all three services in order, wherever it fails.
  pub cancel_open-IsFine :
      (e : Engine) (i : String) (w : Desk) → IsFine w → IsFine (cancel_open e i w).1
  cancel_open-IsFine e i w s =
      (cancel_open-Keeps IsFine e i (record {
        unfrozen = λ u a x i.
            on_account-Keeps _ (send_unfreeze-KeepsTables IsSound post-IsSound e.ref_type u a x i);
        withdrawn = withdraw-Keeps e.venue i;
        cancelled = λ w o os h s. record {
          accounts = s.accounts;
          books = s.books;
          rows = cancel_order-AreRows i w.orders.orders os o h s.rows;
        };
      })).keeps
        w s
