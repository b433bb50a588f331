-- ===== src/Hub/Quoted.antt =====
-- The books of the hub after the demo quotes.
use crypto_exchange_lab.Prelude.{
  ℕ, ◌≡◌, refl, String, List, [], ◌∷◌, Option, none, some, ◌==◌, All, inl, inr, Bool-cases, arith,
  subst,
}
use crypto_exchange_lab.Decimal.{Decimal, Amount, nil, less_or_equal, ◌⊕◌, ◌⊖◌, ◌⊗◌}
use crypto_exchange_lab.Exchange.{Side, Venue}
use crypto_exchange_lab.Matching.Book.{Book, new_book}
use crypto_exchange_lab.Matching.Invariant.{IsValid}
use crypto_exchange_lab.Matching.Keeps.{match_order-IsValid}
use crypto_exchange_lab.Hub.Books.{
  Entry, book_key, venues, set_book, find_book, add_books, new_hub, or_default,
}
use crypto_exchange_lab.Hub.Seed.{
  spread, reference_mid, default_seed_qty, place_resting, quote_book, set_quoted, quote_venues,
  quote_mid, quote_symbols, liquidity,
}

module _ ⦃d : Decimal⦄ where
  abbrev pub AllValid : List Entry → Type 0
  AllValid books = All (λ e. IsValid e.book) books

  pub set_book-AllValid :
      (k : String) (b : Book) (books : List Entry)
      → IsValid b
      → AllValid books
      → AllValid (set_book k b books)
  unfolding set_book
  set_book-AllValid k b [] v h = (v, tt)
  set_book-AllValid k b (e ∷ es) v h = elim (Bool-cases (e.key == k)) [
    | inl q ↦ rw q (v, h.1)
    | inr q ↦ rw q (h.0, set_book-AllValid k b es v h.1)
  ]

  pub find_book-IsValid :
      (k : String) (b : Book) (books : List Entry)
      → find_book k books ≡ some b
      → AllValid books
      → IsValid b
  unfolding find_book
  find_book-IsValid k b [] h v = absurd (ground arith)
  find_book-IsValid k b (e ∷ es) h v = elim (Bool-cases (e.key == k)) [
    | inl q ↦ subst IsValid (ground arith) v.0
    | inr q ↦ find_book-IsValid k b es (rw q at h) v.1
  ]

  place_resting-IsValid :
      (clock : ℕ → ℕ) (id : String) (now : ℕ) (side : Side) (price qty : Amount) (b : Book)
      → IsValid b
      → IsValid (place_resting clock id now side price qty b)
  unfolding place_resting
  place_resting-IsValid clock id now side price qty b v =
      match_order-IsValid clock
        (record {
          id = id;
          user_id = "seed-mm";
          side = side;
          price = price;
          quantity = qty;
          remaining = qty;
          created_at = now;
        })
        b v

  quote_book-IsValid :
      (clock : ℕ → ℕ) (ids : Side → String) (now : ℕ) (mid qty : Amount) (b : Book)
      → IsValid b
      → IsValid (quote_book clock ids now mid qty b)
  unfolding quote_book
  quote_book-IsValid clock ids now mid qty b v =
      let bid = mid ⊗ (d.of_nat 1 ⊖ spread) in
      place_resting-IsValid clock (ids Side.sell) now Side.sell (mid ⊗ (d.of_nat 1 ⊕ spread)) qty
        (place_resting clock (ids Side.buy) now Side.buy bid qty b)
        (place_resting-IsValid clock (ids Side.buy) now Side.buy bid qty b v)

  set_quoted-AllValid :
      (k : String) (quote : Book → Book) (found : Option Book) (books : List Entry)
      → ((b : Book) → found ≡ some b → IsValid (quote b))
      → AllValid books
      → AllValid (set_quoted k quote found books)
  set_quoted-AllValid k quote none books f h = h
  set_quoted-AllValid k quote (some b) books f h = set_book-AllValid k (quote b) books (f b refl) h

  quote_venues-AllValid :
      (clock : ℕ → ℕ) (ids : Side → String) (now : ℕ) (sym : String) (mid : Amount)
      (vs : List Venue) (books : List Entry)
      → AllValid books
      → AllValid (quote_venues clock ids now sym mid vs books)
  unfolding quote_venues
  quote_venues-AllValid clock ids now sym mid [] books h = h
  quote_venues-AllValid clock ids now sym mid (v ∷ vs) books h =
      quote_venues-AllValid clock ids now sym mid vs _ (
        set_quoted-AllValid (book_key v sym) (quote_book clock ids now mid (default_seed_qty sym))
          (find_book (book_key v sym) books) books
          (λ b q.
            quote_book-IsValid clock ids now mid (default_seed_qty sym) b
              (find_book-IsValid (book_key v sym) b books q h))
          h)

  quote_mid-AllValid :
      (clock : ℕ → ℕ) (ids : Side → String) (now : ℕ) (sym : String) (mid : Option Amount)
      (books : List Entry)
      → AllValid books
      → AllValid (quote_mid clock ids now sym mid books)
  unfolding quote_mid
  quote_mid-AllValid clock ids now sym none books h = h
  quote_mid-AllValid clock ids now sym (some mid) books h =
      elim (Bool-cases (less_or_equal mid nil)) [
        | inl q ↦ rw q h
        | inr q ↦ rw q (quote_venues-AllValid clock ids now sym mid venues books h)
      ]

  quote_symbols-AllValid :
      (clock : ℕ → ℕ) (ids : Side → String) (now : ℕ) (ss : List String) (books : List Entry)
      → AllValid books
      → AllValid (quote_symbols clock ids now ss books)
  unfolding quote_symbols
  quote_symbols-AllValid clock ids now [] books h = h
  quote_symbols-AllValid clock ids now (s ∷ ss) books h =
      elim (Bool-cases (reference_mid s == "")) [
        | inl q ↦ rw q (quote_symbols-AllValid clock ids now ss books h)
        | inr q ↦ rw q (
            quote_symbols-AllValid clock ids now ss _
              (quote_mid-AllValid clock ids now s (d.of_text (reference_mid s)) books h))
      ]

  add_books-AllValid :
      (v : Venue) (ss : List String) (books : List Entry)
      → AllValid books
      → AllValid (add_books v ss books)
  unfolding add_books new_book
  add_books-AllValid v [] books h = h
  add_books-AllValid v (s ∷ ss) books h = add_books-AllValid v ss _ (
      set_book-AllValid _ _ books
        (record {
          live_bids = tt;
          live_asks = tt;
          sorted_bids = tt;
          sorted_asks = tt;
          uncrossed = tt;
        })
        h)

  -- The books of a new hub are valid: they are empty.
  pub new_hub-AllValid : (symbols : List String) → AllValid (new_hub symbols).books
  unfolding new_hub
  new_hub-AllValid symbols =
      add_books-AllValid Venue.dex (or_default symbols) _
        (add_books-AllValid Venue.cex (or_default symbols) [] tt)

  -- Whatever the symbols, the uuids, the time and the clock are, each book of a new hub is valid
  -- once the demo quotes are placed: on no venue does a bid reach an ask.
  pub liquidity-AllValid :
      (clock : ℕ → ℕ) (ids : Side → String) (now : ℕ) (symbols : List String)
      → AllValid (liquidity clock ids now (new_hub symbols)).books
  unfolding liquidity
  liquidity-AllValid clock ids now symbols =
      quote_symbols-AllValid clock ids now (new_hub symbols).symbols _ (new_hub-AllValid symbols)
