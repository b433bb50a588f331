-- ===== src/Matching/Depth.antt =====
-- `Depth` and `aggregateSide` of book.go.
pub mod Levels
pub mod Best
use crypto_exchange_lab.Prelude.{
  ℕ, Bool, true, false, String, List, [], ◌∷◌, ◌++◌, Option, none, some, if◌then◌else◌, ltb, ◌==◌,
  length, take, map,
}
use crypto_exchange_lab.Decimal.{Decimal, Amount, nil, less, greater, is_zero, ◌⊕◌}
use crypto_exchange_lab.Sort.{sort_slice}
use crypto_exchange_lab.Matching.Book.{Order, Book}

module _ ⦃d : Decimal⦄ where
  pub record PriceLevel : Type 0 where
    pub price : String
    pub quantity : String

  -- The Go map from printed prices to quantities; a missing key reads as zero.
  abbrev pub Levels : Type 0
  Levels = List (String × Amount)

  unfoldable pub level : String → Levels → Option Amount
  level k [] = none
  level k (e ∷ m) = if e.0 == k then some e.1 else level k m

  unfoldable pub set_level : String → Amount → Levels → Levels
  set_level k v [] = (k, v) ∷ []
  set_level k v (e ∷ m) = if e.0 == k then (k, v) ∷ m else e ∷ set_level k v m

  abbrev pub or_zero : Option Amount → Amount
  or_zero none = nil
  or_zero (some a) = a

  abbrev pub note_price : Option Amount → Amount → List Amount → List Amount
  note_price none p prices = prices ++ p ∷ []
  note_price (some a) p prices = prices

  -- The first loop of `aggregateSide`.
  unfoldable pub collect : List Order → Levels → List Amount → Levels × List Amount
  unfolding level set_level
  collect [] m prices = (m, prices)
  collect (o ∷ os) m prices =
      let key = d.text o.price in
      collect os
        (if is_zero o.remaining then m else set_level key (or_zero (level key m) ⊕ o.remaining) m)
        (if is_zero o.remaining then prices else note_price (level key m) o.price prices)

  unfoldable pub aggregate_side : List Order → ℕ → Bool → List PriceLevel
  unfolding collect sort_slice
  aggregate_side orders levels is_bid =
      let (m, prices) = collect orders [] [] in
      let sorted = sort_slice (if is_bid then greater else less) prices in
      let shown = if ltb levels (length sorted) then take levels sorted else sorted in
      map (λ p. record { price = d.text p; quantity = d.text (or_zero (level (d.text p) m)) }) shown

  unfoldable pub depth : ℕ → Book → List PriceLevel × List PriceLevel
  unfolding aggregate_side
  depth levels b = (aggregate_side b.bids levels true, aggregate_side b.asks levels false)
