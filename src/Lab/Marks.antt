-- ===== src/Lab/Marks.antt =====
-- The mark prices that hyperliquid-engine takes from the books of the matching engine.
use crypto_exchange_lab.Prelude.{
  ◌≡◌, ℕ, suc, refl, sym, ap, ap₂, ◌∙◌, true, false, String, List, [], ◌∷◌, Option, none, some,
  if◌then◌else◌, ◌==◌, eq_iff, eq_refl, All, All-map, arith, inl, inr, Option-cases,
}
use crypto_exchange_lab.Decimal.{Decimal, Amount, nil, ◌⊕◌, less_or_equal, is_zero, greater, less}
use crypto_exchange_lab.Decimal.Laws.{cmp_flip}
use crypto_exchange_lab.Exchange.{Venue, valid_venue}
use crypto_exchange_lab.Sort.{IsSorted, Pairwise, sort_slice-Pairwise, All-sort_slice}
use crypto_exchange_lab.Matching.Book.{Order, Book, bid_before, ask_before}
use crypto_exchange_lab.Matching.Depth.{depth, aggregate_side}
use crypto_exchange_lab.Matching.Depth.Best.{aggregate_side-best, aggregate_side-empty}
use crypto_exchange_lab.Matching.Termination.{IsLive}
use crypto_exchange_lab.Matching.Priority.{ask_price-le, bid_price-le}
use crypto_exchange_lab.Matching.Invariant.{IsValid}
use crypto_exchange_lab.Hub.Books.{book_of, book_key}
use crypto_exchange_lab.Hub.Quoted.{AllValid, find_book-IsValid}
use crypto_exchange_lab.Hub.Handler.{Server, show_depth, query_book, parse_venue}
use crypto_exchange_lab.Perps.Store.{
  Market, MarkPrice, PerpTables, list_markets, get_mark_price, set_mark_price,
}
use crypto_exchange_lab.Perps.Rounds.{mid_of, set_mid, tick_markets, tick}
use crypto_exchange_lab.Lab.Services.{prices_of, cex_depth}

module _ ⦃d : Decimal⦄ where
  -- The middle of the best bid and the best ask, where there are both.
  abbrev pub middle : List Order → List Order → Option Amount
  middle (b ∷ bids) (a ∷ asks) = some (d.quotient (b.price ⊕ a.price) (d.of_nat 2))
  middle _ _ = none

  abbrev pub book_middle : Option Book → Option Amount
  book_middle none = none
  book_middle (some b) = middle b.bids b.asks

  live-remaining : (o : Order) → IsLive o → is_zero o.remaining ≡ false
  live-remaining o l = ground (arith, l.some_left, cmp_flip nil o.remaining)

  best_bid :
      (o : Order) (os : List Order)
      → All (λ x. bid_before x o ≡ false) os
      → All (λ (x : Order). greater x.price o.price ≡ false) os
  best_bid o os h = All-map (λ x k. ground (arith, bid_price-le o x k)) os h

  best_ask :
      (o : Order) (os : List Order)
      → All (λ x. ask_before x o ≡ false) os
      → All (λ (x : Order). less x.price o.price ≡ false) os
  best_ask o os h =
      All-map (λ x k. ground (arith, ask_price-le o x k, cmp_flip x.price o.price)) os h

  no_bids : (asks : List String) → mid_of (some ([], asks)) ≡ none
  unfolding mid_of
  no_bids asks = refl

  no_asks : (bids : List String) → mid_of (some (bids, [])) ≡ none
  unfolding mid_of
  no_asks [] = refl
  no_asks (b ∷ bids) = refl

  mid_of_first :
      (b a : Amount) (bids asks : List String)
      → mid_of (some (d.text b ∷ bids, d.text a ∷ asks)) ≡ some (d.quotient (b ⊕ a) (d.of_nat 2))
  unfolding mid_of
  mid_of_first b a bids asks = rw (d.of_text-text b, d.of_text-text a)

  sides_middle :
      (n : ℕ) (bids asks : List Order)
      → All IsLive bids
      → All IsLive asks
      → IsSorted bid_before bids
      → IsSorted ask_before asks
      → mid_of (
          some (
            prices_of (aggregate_side bids (suc n) true),
            prices_of (aggregate_side asks (suc n) false),
          ))
        ≡ middle bids asks
  sides_middle n [] asks l k s t =
      ap (λ x. mid_of (some (prices_of x, prices_of (aggregate_side asks (suc n) false))))
        (aggregate_side-empty n true)
      ∙ no_bids (prices_of (aggregate_side asks (suc n) false))
  sides_middle n (b ∷ bids) [] l k s t =
      let (rest, e) =
        aggregate_side-best b bids n true (live-remaining b l.0) (best_bid b bids s.0) in
      ap₂ (λ x y. mid_of (some (x, prices_of y))) e (aggregate_side-empty n false)
      ∙ no_asks (d.text b.price ∷ rest)
  sides_middle n (b ∷ bids) (a ∷ asks) l k s t =
      let (rest, e) =
        aggregate_side-best b bids n true (live-remaining b l.0) (best_bid b bids s.0) in
      let (rest', f) =
        aggregate_side-best a asks n false (live-remaining a k.0) (best_ask a asks t.0) in
      ap₂ (λ x y. mid_of (some (x, y))) e f ∙ mid_of_first b.price a.price rest rest'

  -- What `fetchCEXMid` makes of the depth of a valid book.
  shown_middle :
      (b : Book)
      → IsValid b
      → mid_of (some (prices_of (depth 15 b).0, prices_of (depth 15 b).1)) ≡ middle b.bids b.asks
  unfolding depth
  shown_middle b v =
      sides_middle 14 b.bids b.asks v.live_bids v.live_asks v.sorted_bids v.sorted_asks

  cex_depth-some :
      (sv : Server) (spot : String) (b : Book)
      → book_of Venue.cex spot sv.hub ≡ some b
      → cex_depth sv spot ≡ some (prices_of (depth 15 b).0, prices_of (depth 15 b).1)
  unfolding cex_depth show_depth query_book parse_venue valid_venue
  cex_depth-some sv spot b h = rw h refl

  cex_depth-none :
      (sv : Server) (spot : String)
      → book_of Venue.cex spot sv.hub ≡ none
      → mid_of (cex_depth sv spot) ≡ none
  unfolding cex_depth show_depth query_book parse_venue valid_venue mid_of
  cex_depth-none sv spot h = rw h refl

  book_of-IsValid :
      (spot : String) (b : Book) (sv : Server)
      → book_of Venue.cex spot sv.hub ≡ some b
      → AllValid sv.hub.books
      → IsValid b
  unfolding book_of
  book_of-IsValid spot b sv e v = find_book-IsValid (book_key Venue.cex spot) b sv.hub.books e v

  -- The middle that is fetched for a spot symbol is that of the best orders in its CEX book, and
  -- there is none where the book is unknown or has an empty side.
  cex_mid :
      (sv : Server) (spot : String)
      → AllValid sv.hub.books
      → mid_of (cex_depth sv spot) ≡ book_middle (book_of Venue.cex spot sv.hub)
  cex_mid sv spot v = elim (Option-cases (book_of Venue.cex spot sv.hub)) [
    | inl e ↦ cex_depth-none sv spot e ∙ sym (ap book_middle e)
    | inr (b, e) ↦
        ap mid_of (cex_depth-some sv spot b e)
        ∙ shown_middle b (book_of-IsValid spot b sv e v)
        ∙ sym (ap book_middle e)
  ]

  -- A price that is fetched takes the place of the old one if it is positive.
  abbrev pub marked : Option Amount → Option Amount → Option Amount
  marked none old = old
  marked (some mid) old = if less_or_equal mid nil then old else some mid

  get-set_mark_price :
      (s j : String) (p : Amount) (marks : List MarkPrice)
      → get_mark_price j (set_mark_price s p marks)
        ≡ (if s == j then some p else get_mark_price j marks)
  unfolding get_mark_price set_mark_price
  get-set_mark_price s j p [] = refl
  get-set_mark_price s j p (m ∷ ms) =
      ground (arith, eq_iff s j, eq_iff m.symbol s, eq_iff m.symbol j, get-set_mark_price s j p ms)

  get-set_mid :
      (s j : String) (mid : Option Amount) (marks : List MarkPrice)
      → get_mark_price j (set_mid s mid marks)
        ≡ (if s == j then marked mid (get_mark_price j marks) else get_mark_price j marks)
  unfolding set_mid
  get-set_mid s j none marks = ground arith
  get-set_mid s j (some mid) marks = ground (arith, get-set_mark_price s j mid marks)

  abbrev pub Differ : Market → Market → Type 0
  Differ m n = (m.symbol == n.symbol) ≡ false

  Differ-swapped : (m n : Market) → Differ m n → Differ n m
  Differ-swapped m n h = ground (arith, eq_iff m.symbol n.symbol, eq_iff n.symbol m.symbol)

  -- Symbols of markets are unique.
  abbrev pub AreMarkets : List Market → Type 0
  AreMarkets = Pairwise Differ

  module _ (depths : String → Option (List String × List String)) where
    tick_markets_other :
        (m : Market) (ms : List Market) (marks : List MarkPrice)
        → All (Differ m) ms
        → get_mark_price m.symbol (tick_markets depths ms marks) ≡ get_mark_price m.symbol marks
    unfolding tick_markets
    tick_markets_other m [] marks h = refl
    tick_markets_other m (n ∷ ns) marks h =
        tick_markets_other m ns _ h.1
        ∙ get-set_mid n.symbol m.symbol (mid_of (depths n.spot_symbol)) marks
        ∙ rw (Differ-swapped m n h.0) refl

    from_set_mid :
        (m : Market) (ms : List Market) (marks : List MarkPrice) (after : List MarkPrice)
        → All (Differ m) ms
        → All
            (λ x.
              get_mark_price x.symbol after
              ≡ marked (mid_of (depths x.spot_symbol)) (
                  get_mark_price x.symbol (set_mid m.symbol (mid_of (depths m.spot_symbol)) marks)))
            ms
        → All
            (λ x.
              get_mark_price x.symbol after
              ≡ marked (mid_of (depths x.spot_symbol)) (get_mark_price x.symbol marks))
            ms
    from_set_mid m [] marks after h k = tt
    from_set_mid m (x ∷ xs) marks after h k = (
      k.0
          ∙ ap (marked (mid_of (depths x.spot_symbol)))
              (get-set_mid m.symbol x.symbol (mid_of (depths m.spot_symbol)) marks ∙ rw h.0 refl),
      from_set_mid m xs marks after h.1 k.1,
    )

    tick_markets_lem :
        (ms : List Market) (marks : List MarkPrice)
        → AreMarkets ms
        → All
            (λ x.
              get_mark_price x.symbol (tick_markets depths ms marks)
              ≡ marked (mid_of (depths x.spot_symbol)) (get_mark_price x.symbol marks))
            ms
    unfolding tick_markets
    tick_markets_lem [] marks a = tt
    tick_markets_lem (m ∷ ms) marks a = (
      tick_markets_other m ms _ a.0
          ∙ get-set_mid m.symbol m.symbol (mid_of (depths m.spot_symbol)) marks
          ∙ rw (eq_refl m.symbol) refl,
      from_set_mid m ms marks _ a.0 (tick_markets_lem ms _ a.1),
    )

  -- A round of the mark price feed on a matching engine with valid books: the mark of each market
  -- becomes the middle of the best bid and the best ask in the CEX book of its spot symbol. Where
  -- that book is unknown or has an empty side, or the middle is not positive, the mark stays.
  pub tick_books :
      (sv : Server) (t : PerpTables)
      → AllValid sv.hub.books
      → AreMarkets t.markets
      → All
          (λ (m : Market).
            get_mark_price m.symbol (tick (cex_depth sv) t).marks
            ≡ marked
                (book_middle (book_of Venue.cex m.spot_symbol sv.hub))
                (get_mark_price m.symbol t.marks))
          t.markets
  unfolding tick list_markets
  tick_books sv t v a =
      All-map
        (λ m e.
          e ∙ ap (λ x. marked x (get_mark_price m.symbol t.marks)) (cex_mid sv m.spot_symbol v))
        t.markets
        (All-sort_slice _ _ t.markets (
          tick_markets_lem (cex_depth sv) (list_markets t) t.marks
            (sort_slice-Pairwise _ Differ Differ-swapped t.markets a)))
