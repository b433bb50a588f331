-- ===== src/Hub/Reading.antt =====
-- Which book a request to the matching engine reads.
use crypto_exchange_lab.Prelude.{◌≡◌, sym, ap, ◌∙◌, String, Option, none, some, arith}
use crypto_exchange_lab.Decimal.{Decimal}
use crypto_exchange_lab.Exchange.{Venue}
use crypto_exchange_lab.Errors.{Result, ok, err, bind_ok}
use crypto_exchange_lab.Account.Handler.{parse}
use crypto_exchange_lab.Matching.Book.{Order, Book}
use crypto_exchange_lab.Hub.Books.{Hub, book_key, book_of, find_book}
use crypto_exchange_lab.Hub.Handler.{
  Times, SubmitReq, parse_venue, found_book, submit_price, read_submit, query_book,
}

module _ ⦃d : Decimal⦄ where
  found_book_ok : (r : Option Book) (b : Book) → found_book r ≡ ok b → r ≡ some b
  found_book_ok none b h = absurd cc
  found_book_ok (some x) b h = ground arith

  -- An order that is read names a book of the hub.
  pub read_submit-book :
      (times : Times) (req : SubmitReq) (query : String) (hub : Hub) (v : Venue) (b : Book)
      (o : Order)
      → read_submit times req query hub ≡ ok (v, b, o)
      → find_book (book_key v req.symbol) hub.books ≡ some b
  unfolding read_submit book_of
  read_submit-book times req query hub v b o h =
      let (v1, e1, h1) = bind_ok (parse_venue query req.venue) _ h in
      let (b1, e2, h2) = bind_ok (found_book (book_of v1 req.symbol hub)) _ h1 in
      let (q, e3, h3) = bind_ok (parse req.quantity) _ h2 in
      let (p, e4, h4) = bind_ok (submit_price req) _ h3 in
      let same_venue : v1 ≡ v = ap (λ r. (payload r v1 b1 o).0) h4 in
      let same_book : b1 ≡ b = ap (λ r. (payload r v1 b1 o).1) h4 in
      ap (λ x. find_book (book_key x req.symbol) hub.books) (sym same_venue)
      ∙ found_book_ok (book_of v1 req.symbol hub) b1 e2
      ∙ ap some same_book
    where
      payload : Result (Venue × Book × Order) → Venue → Book → Order → Venue × Book × Order
      payload (ok x) v b o = x
      payload (err e) v b o = (v, b, o)

  -- So does a query that is read.
  pub query_book-book :
      (query symbol : String) (hub : Hub) (v : Venue) (b : Book)
      → query_book query symbol hub ≡ ok (v, b)
      → find_book (book_key v symbol) hub.books ≡ some b
  unfolding query_book book_of
  query_book-book query symbol hub v b h =
      let (v1, e1, h1) = bind_ok (parse_venue query "") _ h in
      let (b1, e2, h2) = bind_ok (found_book (book_of v1 symbol hub)) _ h1 in
      let same_venue : v1 ≡ v = ap (λ r. (payload r v1 b1).0) h2 in
      let same_book : b1 ≡ b = ap (λ r. (payload r v1 b1).1) h2 in
      ap (λ x. find_book (book_key x symbol) hub.books) (sym same_venue)
      ∙ found_book_ok (book_of v1 symbol hub) b1 e2
      ∙ ap some same_book
    where
      payload : Result (Venue × Book) → Venue → Book → Venue × Book
      payload (ok x) v b = x
      payload (err e) v b = (v, b)
