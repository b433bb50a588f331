-- ===== src/Orders/Isolated.antt =====
-- The books of one venue and the orders of the other.
use crypto_exchange_lab.Prelude.{
  ℕ, ◌≡◌, refl, ap, ◌∙◌, false, String, List, Option, none, some, ◌==◌, eq_iff, inl, inr,
  Bool-cases, arith,
}
use Prim.Native.String.{◌++◌ as ◌<>◌}
use Prim.Native.Char.{Char, code}
use Prim.Native.String.append
use crypto_exchange_lab.Decimal.{Decimal, Amount}
use crypto_exchange_lab.Exchange.{Venue}
use crypto_exchange_lab.Errors.{Result, ok, err, bind_ok}
use crypto_exchange_lab.Stateful.{Keeps, within-Keeps, update-Keeps}
use crypto_exchange_lab.Account.Store.{Tables}
use crypto_exchange_lab.Matching.Book.{Order as BookOrder, Book, cancel}
use crypto_exchange_lab.Matching.Sweep.{match_order}
use crypto_exchange_lab.Hub.Books.{venue_text, book_key, book_of, find_book}
use crypto_exchange_lab.Hub.Handler.{
  Times, SubmitReq, Server, parse_venue, read_submit, matched_on, answer_or_fail, submit_order,
  query_book, cancelled_on, found_book, submit_price, cancel_order as remove_order,
}
use crypto_exchange_lab.Orders.Flow.{
  Engine, Draws, PlaceOrderRequest, Desk, on_account, on_orders, kept_rows, kept_tables, set_orders,
  submit, withdraw, record_trade, note_makers, place_order,
}
use crypto_exchange_lab.Orders.Store.{Order, Trade, insert_trade}
use crypto_exchange_lab.Orders.Settle.{MatchTrade}
use crypto_exchange_lab.Orders.Withdrawal.{cancel_open}
use crypto_exchange_lab.Orders.Kept.{place_order-Keeps}
use crypto_exchange_lab.Orders.Released.{cancel_open-Keeps}
use crypto_exchange_lab.Account.Handler.{parse}
use crypto_exchange_lab.Hub.Refined.{view, view-with_book}

abbrev first_letter : String → ℕ
first_letter String.[] = 0
first_letter (String.◌∷◌ c s) = code c

first_letter-append : (c : Char) (s t : String) → first_letter (String.◌∷◌ c s <> t) ≡ code c
first_letter-append c s t = ap first_letter (append.cons c s t)

-- The keys of two venues' books differ: they start with other letters.
pub keys_differ : (s t : String) → (book_key Venue.cex s == book_key Venue.dex t) ≡ false
keys_differ s t = elim (Bool-cases (book_key Venue.cex s == book_key Venue.dex t)) [
  | inl e ↦ absurd (
      omega (
        arith,
        ap first_letter ((eq_iff (book_key Venue.cex s) (book_key Venue.dex t)).0 e),
        first_letter-append "C" "EX" (":" <> s),
        first_letter-append "D" "EX" (":" <> t),
      ))
  | inr e ↦ e
]

pub keys_differ_back : (s t : String) → (book_key Venue.dex s == book_key Venue.cex t) ≡ false
keys_differ_back s t = ground (
  arith,
  keys_differ t s,
  eq_iff (book_key Venue.dex s) (book_key Venue.cex t),
  eq_iff (book_key Venue.cex t) (book_key Venue.dex s),
)

module _ ⦃d : Decimal⦄ where
  -- A book of the matching engine is as it was.
  abbrev pub HasBook : String → Option Book → Desk → Type 0
  HasBook k b w = find_book k w.server.hub.books ≡ b

  submitted-view :
      (k : String) (times : Times) (symbol : String) (r : Result (Venue × Book × BookOrder))
      (sv : Server)
      → ((v : Venue) (b : Book) (o : BookOrder)
          → r ≡ ok (v, b, o)
          → (book_key v symbol == k) ≡ false)
      → view (answer_or_fail r (matched_on times symbol) sv).1 k ≡ view sv k
  unfolding matched_on
  submitted-view k times symbol (err e) sv h = refl
  submitted-view k times symbol (ok (v, b, o)) sv h =
      view-with_book v symbol (match_order times.clock o b).2 sv k ∙ rw (h v b o refl) refl

  removed-view :
      (k symbol : String) (v : Venue) (r : Option BookOrder × Book) (sv : Server)
      → (book_key v symbol == k) ≡ false
      → view (cancelled_on symbol r v sv).1 k ≡ view sv k
  removed-view k symbol v (none, after) sv h = refl
  removed-view k symbol v (some o, after) sv h = view-with_book v symbol after sv k ∙ rw h refl

  cancelled-view :
      (k symbol id : String) (r : Result (Venue × Book)) (sv : Server)
      → ((v : Venue) (b : Book) → r ≡ ok (v, b) → (book_key v symbol == k) ≡ false)
      → view (answer_or_fail r (λ vb. cancelled_on symbol (cancel id vb.1) vb.0) sv).1 k ≡ view sv k
  cancelled-view k symbol id (err e) sv h = refl
  cancelled-view k symbol id (ok (v, b)) sv h =
      removed-view k symbol v (cancel id b) sv (h v b refl)

  -- An engine whose venue has its own books: its requests are read as that venue's, and no symbol
  -- gives the key.
  pub record IsApart (e : Engine) (k : String) : Type 0 where
    pub in_body : parse_venue "" (venue_text e.venue) ≡ ok e.venue
    pub in_query : parse_venue (venue_text e.venue) "" ≡ ok e.venue
    pub other_key : (symbol : String) → (book_key e.venue symbol == k) ≡ false

  module _ (e : Engine) (k : String) (apart : IsApart e k) (b : Option Book) where
    read_submit-venue :
        (times : Times) (req : SubmitReq) (sv : Server) (v : Venue) (b : Book) (o : BookOrder)
        → req.venue ≡ venue_text e.venue
        → read_submit times req "" sv.hub ≡ ok (v, b, o)
        → v ≡ e.venue
    unfolding read_submit
    read_submit-venue times req sv v b o same h =
        let (v1, e1, h1) = bind_ok (parse_venue "" req.venue) _ h in
        let (b1, e2, h2) = bind_ok (found_book (book_of v1 req.symbol sv.hub)) _ h1 in
        let (q, e3, h3) = bind_ok (parse req.quantity) _ h2 in
        let (p, e4, h4) = bind_ok (submit_price req) _ h3 in
        let read : parse_venue "" req.venue ≡ ok e.venue =
          ap (parse_venue "") same ∙ apart.in_body in
        cc

    query_book-venue :
        (symbol : String) (sv : Server) (v : Venue) (b : Book)
        → query_book (venue_text e.venue) symbol sv.hub ≡ ok (v, b)
        → v ≡ e.venue
    unfolding query_book
    query_book-venue symbol sv v b h =
        let (v1, e1, h1) = bind_ok (parse_venue (venue_text e.venue) "") _ h in
        let (b1, e2, h2) = bind_ok (found_book (book_of v1 symbol sv.hub)) _ h1 in
        let read : parse_venue (venue_text e.venue) "" ≡ ok e.venue = apart.in_query in cc

    submit-view :
        (times : Times) (req : SubmitReq) (sv : Server)
        → req.venue ≡ venue_text e.venue
        → view (submit_order times (some req) "" sv).1 k ≡ view sv k
    unfolding submit_order
    submit-view times req sv same =
        submitted-view k times req.symbol (read_submit times req "" sv.hub) sv
          λ v b o h. rw (read_submit-venue times req sv v b o same h) (apart.other_key req.symbol)

    remove-view :
        (id symbol : String) (sv : Server)
        → view (remove_order id symbol (venue_text e.venue) sv).1 k ≡ view sv k
    unfolding remove_order
    remove-view id symbol sv = elim (Bool-cases (symbol == "")) [
      | inl z ↦ rw (z, remove_order) refl
      | inr z ↦
          rw (z, remove_order)
            (cancelled-view k symbol id (query_book (venue_text e.venue) symbol sv.hub) sv
              λ v b h. rw (query_book-venue symbol sv v b h) (apart.other_key symbol))
    ]

    on_account-HasBook : (f : Tables → Result Tables) → Keeps (HasBook k b) (on_account f)
    on_account-HasBook f = within-Keeps (HasBook k b) _ _ f λ w t e s. s

    on_orders-HasBook :
        (call : List Order → Option (List Order)) → Keeps (HasBook k b) (on_orders call)
    on_orders-HasBook call =
        within-Keeps (HasBook k b) _ _ (λ os. kept_rows (call os)) λ w os e s. s

    record_trade-HasBook : (t : Trade) → Keeps (HasBook k b) (record_trade t)
    unfolding record_trade
    record_trade-HasBook t =
        within-Keeps (HasBook k b) (λ (w : Desk). w.orders) set_orders
          (λ tables. kept_tables (insert_trade t tables)) λ w tables e s. s

    note_makers-HasBook :
        (id : String) (q : Amount) (mt : MatchTrade) → Keeps (HasBook k b) (note_makers id q mt)
    unfolding note_makers
    note_makers-HasBook id q mt = update-Keeps (HasBook k b) _ λ w s. s

    submit-HasBook :
        (times : Times) (req : SubmitReq)
        → req.venue ≡ venue_text e.venue
        → Keeps (HasBook k b) (submit times req)
    unfolding submit
    submit-HasBook times req same = record {
      keeps = λ w s. submit-view times req w.server same ∙ s;
    }

    withdraw-HasBook : (id symbol : String) → Keeps (HasBook k b) (withdraw e.venue id symbol)
    unfolding withdraw
    withdraw-HasBook id symbol = record { keeps = λ w s. remove-view id symbol w.server ∙ s }

    pub place_order-HasBook :
        (draws : Draws) (req : PlaceOrderRequest) → Keeps (HasBook k b) (place_order e draws req)
    place_order-HasBook draws req =
        place_order-Keeps (HasBook k b) e draws.order_id
          (record {
            posted = λ f h. on_account-HasBook f;
            sent = submit-HasBook;
            traded = record_trade-HasBook;
            noted = note_makers-HasBook draws.order_id;
          })
          draws req refl (λ o. on_orders-HasBook _) λ x s. on_orders-HasBook _

    pub cancel_open-HasBook : (id : String) → Keeps (HasBook k b) (cancel_open e id)
    cancel_open-HasBook id = cancel_open-Keeps (HasBook k b) e id (record {
      unfrozen = λ u a x j. on_account-HasBook _;
      withdrawn = withdraw-HasBook id;
      cancelled = λ w o os h s. s;
    })
