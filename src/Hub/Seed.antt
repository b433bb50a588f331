-- ===== src/Hub/Seed.antt =====
-- services/matching-engine/internal/seed/seed.go. The uuid and the time of a quote are arguments.
use crypto_exchange_lab.Prelude.{
  ℕ, Bool, String, List, [], ◌∷◌, Option, none, some, if◌then◌else◌, ◌==◌, ◌||◌,
}
use crypto_exchange_lab.Decimal.{Decimal, Amount, nil, ◌⊕◌, ◌⊖◌, ◌⊗◌, less_or_equal}
use crypto_exchange_lab.Exchange.{Side, Venue}
use crypto_exchange_lab.Matching.Book.{Book}
use crypto_exchange_lab.Matching.Sweep.{match_order}
use crypto_exchange_lab.Hub.Books.{Entry, Hub, book_key, venues, set_book, find_book}

-- `ReferenceMid`, with the prices of `SpotSymbolSpecs`.
unfoldable pub reference_mid : String → String
reference_mid s =
    if s == "BTC/USDT"
    then "100000"
    else if s == "ETH/USDT"
    then "3500"
    else if s == "SOL/USDT"
    then "180"
    else if s == "BNB/USDT"
    then "600"
    else if s == "XRP/USDT"
    then "2.2"
    else if s == "DOGE/USDT"
    then "0.15"
    else if s == "LINK/USDT"
    then "15"
    else if s == "AVAX/USDT"
    then "35"
    else if s == "ADA/USDT"
    then "0.55"
    else if s == "DOT/USDT"
    then "7"
    else ""

-- `Enabled`, on the value of the variable.
unfoldable pub enabled : String → Bool
enabled v = v == "" || v == "1" || v == "true"

module _ ⦃d : Decimal⦄ where
  -- `defaultSeedQty`; one half stands for the float 0.5.
  unfoldable pub default_seed_qty : String → Amount
  default_seed_qty s =
      if s == "BTC/USDT"
      then d.quotient (d.of_nat 1) (d.of_nat 2)
      else if s == "ETH/USDT"
      then d.of_nat 5
      else if s == "SOL/USDT" || s == "BNB/USDT"
      then d.of_nat 50
      else if s == "XRP/USDT" || s == "ADA/USDT"
      then d.of_nat 5000
      else if s == "DOGE/USDT"
      then d.of_nat 50000
      else if s == "LINK/USDT" || s == "AVAX/USDT" || s == "DOT/USDT"
      then d.of_nat 200
      else d.of_nat 1

  -- `placeResting`.
  unfoldable pub place_resting : (ℕ → ℕ) → String → ℕ → Side → Amount → Amount → Book → Book
  unfolding match_order
  place_resting clock id now side price qty b =
      (match_order clock
        (record {
          id = id;
          user_id = "seed-mm";
          side = side;
          price = price;
          quantity = qty;
          remaining = qty;
          created_at = now;
        })
        b).2

  -- The spread is 20 basis points to each side.
  abbrev pub spread : Amount
  spread = d.quotient (d.of_nat 20) (d.of_nat 10000)

  -- A bid and an ask around the middle.
  unfoldable pub quote_book : (ℕ → ℕ) → (Side → String) → ℕ → Amount → Amount → Book → Book
  unfolding place_resting
  quote_book clock ids now mid qty b =
      place_resting clock (ids Side.sell) now Side.sell (mid ⊗ (d.of_nat 1 ⊕ spread)) qty
        (place_resting clock (ids Side.buy) now Side.buy (mid ⊗ (d.of_nat 1 ⊖ spread)) qty b)

  abbrev pub set_quoted : String → (Book → Book) → Option Book → List Entry → List Entry
  set_quoted k quote none books = books
  set_quoted k quote (some b) books = set_book k (quote b) books

  unfoldable pub quote_venues :
      (ℕ → ℕ) → (Side → String) → ℕ → String → Amount → List Venue → List Entry → List Entry
  unfolding quote_book default_seed_qty
  quote_venues clock ids now sym mid [] books = books
  quote_venues clock ids now sym mid (v ∷ vs) books = quote_venues clock ids now sym mid vs (
      set_quoted (book_key v sym) (quote_book clock ids now mid (default_seed_qty sym))
        (find_book (book_key v sym) books) books)

  -- A symbol without a positive reference price is skipped.
  unfoldable pub quote_mid :
      (ℕ → ℕ) → (Side → String) → ℕ → String → Option Amount → List Entry → List Entry
  unfolding quote_venues
  quote_mid clock ids now sym none books = books
  quote_mid clock ids now sym (some mid) books =
      if less_or_equal mid nil then books else quote_venues clock ids now sym mid venues books

  unfoldable pub quote_symbols :
      (ℕ → ℕ) → (Side → String) → ℕ → List String → List Entry → List Entry
  unfolding quote_mid reference_mid
  quote_symbols clock ids now [] books = books
  quote_symbols clock ids now (s ∷ ss) books = quote_symbols clock ids now ss (
      if reference_mid s == ""
      then books
      else quote_mid clock ids now s (d.of_text (reference_mid s)) books)

  -- `Liquidity`.
  unfoldable pub liquidity : (ℕ → ℕ) → (Side → String) → ℕ → Hub → Hub
  unfolding quote_symbols
  liquidity clock ids now h = record h { books = quote_symbols clock ids now h.symbols h.books }
