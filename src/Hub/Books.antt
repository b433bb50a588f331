-- ===== src/Hub/Books.antt =====
-- services/matching-engine/internal/engine/hub.go. The map of books is an association list; its lock
-- makes each call one step.
use crypto_exchange_lab.Prelude.{String, List, [], ◌∷◌, Option, none, some, if◌then◌else◌, ◌==◌}
use Prim.Native.String.{◌++◌ as ◌<>◌}
use crypto_exchange_lab.Decimal.{Decimal}
use crypto_exchange_lab.Exchange.{Venue}
use crypto_exchange_lab.Matching.Book.{Book, new_book}

-- `DefaultSpotSymbols`.
abbrev pub default_spot_symbols : List String
default_spot_symbols =
    "BTC/USDT" ∷ "ETH/USDT" ∷ "SOL/USDT" ∷ "BNB/USDT" ∷ "XRP/USDT" ∷ "DOGE/USDT" ∷ "LINK/USDT"
    ∷ "AVAX/USDT" ∷ "ADA/USDT" ∷ "DOT/USDT" ∷ []

-- The text of a venue.
abbrev pub venue_text : Venue → String
venue_text Venue.cex = "CEX"
venue_text Venue.dex = "DEX"
venue_text (Venue.other s) = s

-- `bookKey`.
abbrev pub book_key : Venue → String → String
book_key v symbol = venue_text v <> ":" <> symbol

-- `Venues`.
abbrev pub venues : List Venue
venues = Venue.cex ∷ Venue.dex ∷ []

module _ ⦃d : Decimal⦄ where
  pub record Entry : Type 0 where
    pub key : String
    pub book : Book

  pub record Hub : Type 0 where
    pub symbols : List String
    pub books : List Entry

  -- An assignment to the map.
  unfoldable pub set_book : String → Book → List Entry → List Entry
  set_book k b [] = record { key = k; book = b } ∷ []
  set_book k b (e ∷ es) =
      if e.key == k then record { key = k; book = b } ∷ es else e ∷ set_book k b es

  unfoldable pub find_book : String → List Entry → Option Book
  find_book k [] = none
  find_book k (e ∷ es) = if e.key == k then some e.book else find_book k es

  unfoldable pub add_books : Venue → List String → List Entry → List Entry
  unfolding set_book new_book
  add_books v [] books = books
  add_books v (s ∷ ss) books = add_books v ss (set_book (book_key v s) (new_book s) books)

  abbrev pub or_default : List String → List String
  or_default [] = default_spot_symbols
  or_default (s ∷ ss) = s ∷ ss

  -- `NewHub`.
  unfoldable pub new_hub : List String → Hub
  unfolding add_books
  new_hub symbols = record {
    symbols = or_default symbols;
    books = add_books Venue.dex (or_default symbols) (add_books Venue.cex (or_default symbols) []);
  }

  -- `Book`.
  unfoldable pub book_of : Venue → String → Hub → Option Book
  unfolding find_book
  book_of v symbol h = find_book (book_key v symbol) h.books
