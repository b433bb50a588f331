-- ===== src/Hub/Serving.antt =====
-- What a request to the matching engine does to the books.
use crypto_exchange_lab.Prelude.{
  ◌≡◌, refl, sym, subst, ℕ, String, Option, none, some, ◌==◌, inl, inr, Bool-cases, Option-cases,
}
use crypto_exchange_lab.Decimal.{Decimal}
use crypto_exchange_lab.Exchange.{Venue}
use crypto_exchange_lab.Errors.{Result, ok, err}
use crypto_exchange_lab.Matching.Book.{Order, Book, cancel}
use crypto_exchange_lab.Matching.Sweep.{match_order}
use crypto_exchange_lab.Matching.Invariant.{IsValid}
use crypto_exchange_lab.Matching.Keeps.{match_order-IsValid}
use crypto_exchange_lab.Matching.Withdraw.{cancel-IsValid}
use crypto_exchange_lab.Hub.Books.{Hub, book_key, book_of}
use crypto_exchange_lab.Hub.Quoted.{AllValid, set_book-AllValid, find_book-IsValid}
use crypto_exchange_lab.Hub.Reading.{read_submit-book, query_book-book}
use crypto_exchange_lab.Hub.Handler.{
  Times, SubmitReq, WsClient, Server, Answer, Request, parse_venue, broadcast, send_snapshot,
  with_book, read_submit, matched_on, answer_or_fail, submit_order, query_book, cancelled_on,
  cancel_order, market_ws, leave_ws, join_venue, handle, submitting, cancelling, depth_request,
  trades_request, venues_request, joining, leaving, show_depth, show_trades,
}

module _ ⦃d : Decimal⦄ where
  -- Every book of the server is valid.
  abbrev pub IsFine : Server → Type 0
  IsFine sv = AllValid sv.hub.books

  pub broadcast-hub : (v : Venue) (s : String) (sv : Server) → (broadcast v s sv).hub ≡ sv.hub
  unfolding broadcast
  broadcast-hub v s sv = elim (Option-cases (book_of v s sv.hub)) [
    | inl e ↦ rw (e, broadcast) refl
    | inr (b, e) ↦ rw (e, broadcast) refl
  ]

  send_snapshot-hub : (c : WsClient) (sv : Server) → (send_snapshot c sv).hub ≡ sv.hub
  unfolding send_snapshot
  send_snapshot-hub c sv = elim (Option-cases (book_of c.venue c.symbol sv.hub)) [
    | inl e ↦ rw (e, send_snapshot) refl
    | inr (b, e) ↦ rw (e, send_snapshot) refl
  ]

  with_book-IsFine :
      (v : Venue) (s : String) (b : Book) (sv : Server)
      → IsValid b
      → IsFine sv
      → IsFine (broadcast v s (with_book v s b sv))
  with_book-IsFine v s b sv good fine =
      subst (λ h. AllValid h.books) (sym (broadcast-hub v s (with_book v s b sv)))
        (set_book-AllValid (book_key v s) b sv.hub.books good fine)

  answer_or_fail-IsFine {ℓ} :
      {A : Type ℓ} (r : Result A) (next : A → Server → Answer × Server) (sv : Server)
      → ((a : A) → r ≡ ok a → IsFine (next a sv).1)
      → IsFine sv
      → IsFine (answer_or_fail r next sv).1
  answer_or_fail-IsFine (ok a) next sv h s = h a refl
  answer_or_fail-IsFine (err e) next sv h s = s

  submit_order-IsFine :
      (times : Times) (req : SubmitReq) (query : String) (sv : Server)
      → IsFine sv
      → IsFine (submit_order times (some req) query sv).1
  unfolding submit_order matched_on
  submit_order-IsFine times req query sv fine =
      answer_or_fail-IsFine (read_submit times req query sv.hub) (matched_on times req.symbol) sv
        (λ (venue, book, o) h.
          let valid = match_order-IsValid times.clock o book (
            find_book-IsValid _ book sv.hub.books
              (read_submit-book times req query sv.hub venue book o h) fine) in
          with_book-IsFine venue req.symbol (match_order times.clock o book).2 sv valid fine)
        fine

  cancelled_on-IsFine :
      (s : String) (p : Option Order × Book) (v : Venue) (sv : Server)
      → IsValid p.1
      → IsFine sv
      → IsFine (cancelled_on s p v sv).1
  cancelled_on-IsFine s (none, b) v sv good fine = fine
  cancelled_on-IsFine s (some o, b) v sv good fine = with_book-IsFine v s b sv good fine

  cancel_order-IsFine :
      (id symbol query : String) (sv : Server)
      → IsFine sv
      → IsFine (cancel_order id symbol query sv).1
  unfolding cancel_order
  cancel_order-IsFine id symbol query sv fine = elim (Bool-cases (symbol == "")) [
    | inl e ↦ rw (e, cancel_order) fine
    | inr e ↦
        rw (e, cancel_order)
          (answer_or_fail-IsFine (query_book query symbol sv.hub) _ sv
            (λ (venue, book) h.
              cancelled_on-IsFine symbol (cancel id book) venue sv
                (cancel-IsValid id book (
                  find_book-IsValid _ book sv.hub.books
                    (query_book-book query symbol sv.hub venue book h) fine))
                fine)
            fine)
  ]

  pub join_venue-hub :
      (conn : ℕ) (symbol : String) (r : Result Venue) (sv : Server)
      → (join_venue conn symbol r sv).hub ≡ sv.hub
  join_venue-hub conn symbol (err e) sv = refl
  join_venue-hub conn symbol (ok v) sv = send_snapshot-hub _ _

  same_hub : (h after : Hub) → after ≡ h → AllValid h.books → AllValid after.books
  same_hub h after e fine = subst (λ h. AllValid h.books) (sym e) fine

  pub answer_or_fail-hub {ℓ} :
      {A : Type ℓ} (r : Result A) (answer : A → Answer) (sv : Server)
      → (answer_or_fail r (λ a s. (answer a, s)) sv).1.hub ≡ sv.hub
  answer_or_fail-hub (ok a) answer sv = refl
  answer_or_fail-hub (err e) answer sv = refl

  -- Any request keeps every book of the matching engine valid: whatever is submitted, cancelled or
  -- asked for, on no venue does a bid reach an ask.
  pub handle-IsFine :
      (times : Times) (r : Request) (sv : Server) → IsFine sv → IsFine (handle times r sv).1
  unfolding handle submit_order show_depth show_trades market_ws leave_ws
  handle-IsFine times venues_request sv fine = fine
  handle-IsFine times (submitting none query) sv fine = fine
  handle-IsFine times (submitting (some req) query) sv fine =
      submit_order-IsFine times req query sv fine
  handle-IsFine times (cancelling id symbol query) sv fine =
      cancel_order-IsFine id symbol query sv fine
  handle-IsFine times (depth_request symbol query) sv fine =
      same_hub sv.hub _ (answer_or_fail-hub (query_book query symbol sv.hub) _ sv) fine
  handle-IsFine times (trades_request symbol query) sv fine =
      same_hub sv.hub _ (answer_or_fail-hub (query_book query symbol sv.hub) _ sv) fine
  handle-IsFine times (joining conn symbol query) sv fine =
      same_hub sv.hub _ (join_venue-hub conn symbol (parse_venue query "") sv) fine
  handle-IsFine times (leaving conn) sv fine = fine
