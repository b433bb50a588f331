-- ===== src/Orders/Serving.antt =====
-- What the order API keeps, whatever it is asked.
use crypto_exchange_lab.Prelude.{none, some, subst, sym, ◌≡◌, refl}
use crypto_exchange_lab.Decimal.{Decimal}
use crypto_exchange_lab.Errors.{Result, ok, err}
use crypto_exchange_lab.Orders.Flow.{Draws, Desk, place_order}
use crypto_exchange_lab.Orders.Withdrawal.{cancel_open}
use crypto_exchange_lab.Orders.Keeping.{IsFine, place_order-IsFine}
use crypto_exchange_lab.Orders.Released.{cancel_open-IsFine}
use crypto_exchange_lab.Orders.Api.{
  Handler, Answer, Request, placing, cancelling, listing_orders, listing_trades, listing_symbols,
  asking_venue, place_request, write, serve, handle_place, handle_cancel,
}

module _ ⦃d : Decimal⦄ where
  pub write-desk {ℓ} :
      {A : Type ℓ} (format : A → Answer) (r : Result A × Desk) → (write format r).1 ≡ r.1
  write-desk format (ok a, w) = refl
  write-desk format (err e, w) = refl

  -- Any request to the order API keeps all three services in order: the accounts sound, every book
  -- valid, and the order table within its constraints.
  pub serve-IsFine :
      (h : Handler) (draws : Draws) (r : Request) (w : Desk)
      → IsFine w
      → IsFine (serve h draws r w).1
  unfolding serve handle_place handle_cancel
  serve-IsFine h draws (placing none) w s = s
  serve-IsFine h draws (placing (some body)) w s =
      subst IsFine (sym (write-desk _ (place_order h.engine draws (place_request body) w)))
        (place_order-IsFine h.engine draws (place_request body) w s)
  serve-IsFine h draws (cancelling id) w s =
      subst IsFine (sym (write-desk _ (cancel_open h.engine id w)))
        (cancel_open-IsFine h.engine id w s)
  serve-IsFine h draws (listing_orders u n) w s = s
  serve-IsFine h draws (listing_trades m n) w s = s
  serve-IsFine h draws listing_symbols w s = s
  serve-IsFine h draws asking_venue w s = s
