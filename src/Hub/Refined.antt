-- ===== src/Hub/Refined.antt =====
-- The matching engine as a map from keys to books, and what a request makes of it.
use crypto_exchange_lab.Prelude.{
  ◌≡◌, refl, ap, ◌∙◌, ℕ, String, List, [], ◌∷◌, Option, none, some, if◌then◌else◌, ◌==◌, eq_iff,
  inl, inr, Bool-cases, Option-cases, arith, ◌⊎◌,
}
use crypto_exchange_lab.Decimal.{Decimal, Amount, nil}
use crypto_exchange_lab.Exchange.{Venue, valid_venue}
use crypto_exchange_lab.Errors.{Code, Failure, ok, err}
use crypto_exchange_lab.Matching.Book.{Order, Book, cancel}
use crypto_exchange_lab.Matching.Sweep.{match_order}
use crypto_exchange_lab.Hub.Books.{Entry, Hub, book_key, set_book, find_book, book_of}
use crypto_exchange_lab.Hub.Handler.{
  Times, Server, Request, parse_venue, with_book, read_submit, matched_on, broadcast, submit_order,
  query_book, cancelled_on, cancel_order, handle, show_depth, SubmitReq, submit_price, side_of,
  show_trades, market_ws, leave_ws, submitting, cancelling, depth_request, trades_request,
  venues_request, joining, leaving,
}
use crypto_exchange_lab.Account.Handler.{parse}
use crypto_exchange_lab.Hub.Serving.{broadcast-hub, answer_or_fail-hub, join_venue-hub}

module _ ⦃d : Decimal⦄ where
  -- What the books are, whatever the order of the list.
  abbrev pub View : Type 0
  View = String → Option Book

  abbrev pub view : Server → View
  view sv k = find_book k sv.hub.books

  abbrev pub put : String → Book → View → View
  put k b f j = if k == j then some b else f j

  -- The venue that a request names: by its body, or else by its query, or else CEX.
  abbrev pub named_venue : String → String → Option Venue
  named_venue body query =
      let name = if body == "" then (if query == "" then "CEX" else query) else body in
      if name == "CEX" then some Venue.cex else if name == "DEX" then some Venue.dex else none

  -- The price that a request names: none is needed for a market order.
  abbrev pub named_price : SubmitReq → Option Amount
  named_price req = if req.type_name == "MARKET" then some nil else d.of_text req.price

  -- The new order with all of its quantity to go, where a quantity and a price can be read.
  abbrev pub named_order : Times → SubmitReq → Option Amount → Option Amount → Option Order
  named_order times req none price = none
  named_order times req (some q) none = none
  named_order times req (some q) (some p) = some (record {
    id = req.order_id;
    user_id = req.user_id;
    side = side_of req.side;
    price = p;
    quantity = q;
    remaining = q;
    created_at = times.now;
  })

  -- Where there is a book, it is replaced by what matching makes of it.
  abbrev pub place : (ℕ → ℕ) → String → View → Option Book → Option Order → View
  place clock key f none o = f
  place clock key f (some b) none = f
  place clock key f (some b) (some o) = put key (match_order clock o b).2 f

  abbrev pub place_at : Times → SubmitReq → View → Option Venue → View
  place_at times req f none = f
  place_at times req f (some v) =
      place times.clock (book_key v req.symbol) f (f (book_key v req.symbol))
        (named_order times req (d.of_text req.quantity) (named_price req))

  -- A cancellation that finds nothing changes nothing.
  abbrev pub take_out : String → View → Option Order × Book → View
  take_out key f (none, after) = f
  take_out key f (some o, after) = put key after f

  abbrev pub cancel_in : String → String → View → Option Book → View
  cancel_in id key f none = f
  cancel_in id key f (some b) = take_out key f (cancel id b)

  abbrev pub cancel_at : String → String → View → Option Venue → View
  cancel_at id symbol f none = f
  cancel_at id symbol f (some v) = cancel_in id (book_key v symbol) f (f (book_key v symbol))

  -- What a request makes of the map: an order is matched in the book that it names, a cancellation
  -- takes out of the book that it names, and all else changes nothing.
  abbrev pub expected : Times → Request → View → View
  expected times (submitting (some req) query) f =
      place_at times req f (named_venue req.venue query)
  expected times (cancelling id symbol query) f =
      if symbol == "" then f else cancel_at id symbol f (named_venue "" query)
  expected times _ f = f

  find_book-set_book :
      (j k : String) (b : Book) (books : List Entry)
      → find_book j (set_book k b books) ≡ (if k == j then some b else find_book j books)
  unfolding find_book set_book
  find_book-set_book j k b [] = refl
  find_book-set_book j k b (e ∷ es) =
      ground (arith, eq_iff e.key k, eq_iff e.key j, eq_iff k j, find_book-set_book j k b es)

  -- Putting a book back, with a broadcast.
  pub view-with_book :
      (v : Venue) (s : String) (b : Book) (sv : Server) (k : String)
      → view (broadcast v s (with_book v s b sv)) k ≡ put (book_key v s) b (view sv) k
  view-with_book v s b sv k =
      ap (λ h. find_book k h.books) (broadcast-hub v s (with_book v s b sv))
      ∙ find_book-set_book k (book_key v s) b sv.hub.books

  -- The venue is read as named, or refused.
  named_venue_cases :
      (body query : String)
      → ((named_venue body query ≡ none) × (e : Failure) × (parse_venue query body ≡ err e))
        ⊎ ((v : Venue) × (named_venue body query ≡ some v) × (parse_venue query body ≡ ok v))
  unfolding parse_venue valid_venue
  named_venue_cases body query = elim (Option-cases (named_venue body query)) [
    | inl e ↦ inl (
      e,
      Failure.app (record { code = Code.invalid_argument; message = "invalid venue" }),
      ground (arith, e),
    )
    | inr (v, e) ↦ inr (v, e, ground (arith, e))
  ]

  parse_cases :
      (text : String)
      → ((d.of_text text ≡ none) × (e : Failure) × (parse text ≡ err e))
        ⊎ ((x : Amount) × (d.of_text text ≡ some x) × (parse text ≡ ok x))
  unfolding parse
  parse_cases text = elim (Option-cases (d.of_text text)) [
    | inl e ↦ inl (
      e,
      Failure.app (record { code = Code.invalid_argument; message = "invalid decimal" }),
      rw (e, parse) refl,
    )
    | inr (x, e) ↦ inr (x, e, rw (e, parse) refl)
  ]

  named_price_cases :
      (req : SubmitReq)
      → ((named_price req ≡ none) × (e : Failure) × (submit_price req ≡ err e))
        ⊎ ((x : Amount) × (named_price req ≡ some x) × (submit_price req ≡ ok x))
  named_price_cases req = elim (Bool-cases (req.type_name == "MARKET")) [
    | inl e ↦ inr (nil, rw e refl, rw e refl)
    | inr e ↦ elim (parse_cases req.price) [
      | inl (n, f, h) ↦ inl (rw e n, f, rw e h)
      | inr (x, n, h) ↦ inr (x, rw e n, rw e h)
    ]
  ]

  -- With a venue, the book is looked up, and the order is as named or refused.
  submitted :
      (times : Times) (req : SubmitReq) (query : String) (sv : Server) (v : Venue) (k : String)
      → parse_venue query req.venue ≡ ok v
      → view (submit_order times (some req) query sv).1 k ≡ place_at times req (view sv) (some v) k
  unfolding submit_order read_submit matched_on book_of
  submitted times req query sv v k h =
      elim (Option-cases (find_book (book_key v req.symbol) sv.hub.books)) [
        | inl e ↦ rw (h, e) refl
        | inr (b, e) ↦ elim (parse_cases req.quantity) [
          | inl (q, f, g) ↦ rw (h, e, q, g) refl
          | inr (qty, q, g) ↦ elim (named_price_cases req) [
            | inl (p, f, r) ↦ rw (h, e, q, g, p, r) refl
            | inr (x, p, r) ↦ rw (h, e, q, g, p, r) (view-with_book v req.symbol _ sv k)
          ]
        ]
      ]

  refused :
      (times : Times) (req : SubmitReq) (query : String) (sv : Server) (f : Failure) (k : String)
      → parse_venue query req.venue ≡ err f
      → view (submit_order times (some req) query sv).1 k ≡ view sv k
  unfolding submit_order read_submit
  refused times req query sv f k h = rw h refl

  submit_order-view :
      (times : Times) (req : SubmitReq) (query : String) (sv : Server) (k : String)
      → view (submit_order times (some req) query sv).1 k
        ≡ expected times (submitting (some req) query) (view sv) k
  submit_order-view times req query sv k = elim (named_venue_cases req.venue query) [
    | inl (e, f, h) ↦ rw e (refused times req query sv f k h)
    | inr (v, e, h) ↦ rw e (submitted times req query sv v k h)
  ]

  removed-view :
      (symbol : String) (v : Venue) (r : Option Order × Book) (sv : Server) (k : String)
      → view (cancelled_on symbol r v sv).1 k ≡ take_out (book_key v symbol) (view sv) r k
  removed-view symbol v (none, after) sv k = refl
  removed-view symbol v (some o, after) sv k = view-with_book v symbol after sv k

  cancel_order-view :
      (times : Times) (id symbol query : String) (sv : Server) (k : String)
      → view (cancel_order id symbol query sv).1 k
        ≡ expected times (cancelling id symbol query) (view sv) k
  unfolding cancel_order query_book book_of
  cancel_order-view times id symbol query sv k = elim (Bool-cases (symbol == "")) [
    | inl e ↦ rw e refl
    | inr e ↦ elim (named_venue_cases "" query) [
      | inl (n, f, h) ↦ rw (e, n, h) refl
      | inr (v, n, h) ↦ elim (Option-cases (find_book (book_key v symbol) sv.hub.books)) [
        | inl f ↦ rw (e, n, h, f) refl
        | inr (b, f) ↦ rw (e, n, h, f) (removed-view symbol v (cancel id b) sv k)
      ]
    ]
  ]

  same_books :
      (k : String) (h after : Hub) → after ≡ h → find_book k after.books ≡ find_book k h.books
  same_books k h after e = ap (λ x. find_book k x.books) e

  -- The matching engine refines a map from keys to books. An order that can be read is matched in the
  -- book of the venue and symbol that its request names, under the id, user, side, price and quantity
  -- that the request names; a cancellation takes the named order out of the book that its request
  -- names; the books of all other keys stay, and so do all books at any other request.
  pub handle-expected :
      (times : Times) (r : Request) (sv : Server) (k : String)
      → view (handle times r sv).1 k ≡ expected times r (view sv) k
  unfolding handle submit_order show_depth show_trades market_ws leave_ws
  handle-expected times venues_request sv k = refl
  handle-expected times (submitting none query) sv k = refl
  handle-expected times (submitting (some req) query) sv k = submit_order-view times req query sv k
  handle-expected times (cancelling id symbol query) sv k =
      cancel_order-view times id symbol query sv k
  handle-expected times (depth_request symbol query) sv k =
      same_books k sv.hub _ (answer_or_fail-hub (query_book query symbol sv.hub) _ sv)
  handle-expected times (trades_request symbol query) sv k =
      same_books k sv.hub _ (answer_or_fail-hub (query_book query symbol sv.hub) _ sv)
  handle-expected times (joining conn symbol query) sv k =
      same_books k sv.hub _ (join_venue-hub conn symbol (parse_venue query "") sv)
  handle-expected times (leaving conn) sv k = refl
