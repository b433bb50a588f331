-- ===== src/Lab/Isolated.antt =====
-- The two order services and the books of each other's venue.
use crypto_exchange_lab.Prelude.{◌≡◌, refl, sym, subst, String, Option, none, some}
use crypto_exchange_lab.Decimal.{Decimal}
use crypto_exchange_lab.Exchange.{Venue, valid_venue}
use crypto_exchange_lab.Matching.Book.{Book}
use crypto_exchange_lab.Hub.Books.{book_key, book_of}
use crypto_exchange_lab.Hub.Handler.{parse_venue}
use crypto_exchange_lab.Orders.Flow.{Draws, Desk, place_order}
use crypto_exchange_lab.Orders.Withdrawal.{cancel_open}
use crypto_exchange_lab.Orders.Serving.{write-desk}
use crypto_exchange_lab.Orders.Isolated.{
  keys_differ, keys_differ_back, HasBook, IsApart, place_order-HasBook, cancel_open-HasBook,
}
use crypto_exchange_lab.Orders.Api.{
  Handler, Request, placing, cancelling, listing_orders, listing_trades, listing_symbols,
  asking_venue, place_request, serve, handle_place, handle_cancel,
}
use crypto_exchange_lab.Lab.Services.{order_service, orderbook_dex}

module _ ⦃d : Decimal⦄ where
  cex-IsApart : (symbol : String) → IsApart order_service.engine (book_key Venue.dex symbol)
  unfolding parse_venue valid_venue
  cex-IsApart symbol = record {
    in_body = refl;
    in_query = refl;
    other_key = λ s. keys_differ s symbol;
  }

  dex-IsApart : (symbol : String) → IsApart orderbook_dex.engine (book_key Venue.cex symbol)
  unfolding parse_venue valid_venue
  dex-IsApart symbol = record {
    in_body = refl;
    in_query = refl;
    other_key = λ s. keys_differ_back s symbol;
  }

  module _ (h : Handler) (k : String) (apart : IsApart h.engine k) (b : Option Book) where
    serve-HasBook :
        (draws : Draws) (r : Request) (w : Desk) → HasBook k b w → HasBook k b (serve h draws r w).1
    unfolding serve handle_place handle_cancel
    serve-HasBook draws (placing none) w s = s
    serve-HasBook draws (placing (some body)) w s =
        subst (HasBook k b) (sym (write-desk _ (place_order h.engine draws (place_request body) w)))
          ((place_order-HasBook h.engine k apart b draws (place_request body)).keeps w s)
    serve-HasBook draws (cancelling id) w s =
        subst (HasBook k b) (sym (write-desk _ (cancel_open h.engine id w)))
          ((cancel_open-HasBook h.engine k apart b id).keeps w s)
    serve-HasBook draws (listing_orders u n) w s = s
    serve-HasBook draws (listing_trades m n) w s = s
    serve-HasBook draws listing_symbols w s = s
    serve-HasBook draws asking_venue w s = s

  -- Whatever order-service is asked, wherever it fails, every DEX book of the matching engine is as
  -- it was; and whatever orderbook-dex is asked, so is every CEX book.
  pub serve_isolated :
      (draws : Draws) (r : Request) (w : Desk) (symbol : String)
      → (book_of Venue.dex symbol (serve order_service draws r w).1.server.hub
          ≡ book_of Venue.dex symbol w.server.hub)
        × (book_of Venue.cex symbol (serve orderbook_dex draws r w).1.server.hub
            ≡ book_of Venue.cex symbol w.server.hub)
  unfolding book_of
  serve_isolated draws r w symbol = (
    serve-HasBook order_service (book_key Venue.dex symbol) (cex-IsApart symbol) _ draws r w refl,
    serve-HasBook orderbook_dex (book_key Venue.cex symbol) (dex-IsApart symbol) _ draws r w refl,
  )
