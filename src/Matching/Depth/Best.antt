-- ===== src/Matching/Depth/Best.antt =====
-- The first level that the depth of a side shows.
use crypto_exchange_lab.Prelude.{
  ℕ, suc, ◌≡◌, refl, ap, ◌∙◌, Bool, true, false, String, List, [], ◌∷◌, Option, none, some,
  if◌then◌else◌, All, All-append, inl, inr, Bool-cases, ltb, length, take, map,
}
use crypto_exchange_lab.Decimal.{Decimal, Amount, nil, less, greater, is_zero, ◌⊕◌}
use crypto_exchange_lab.Sort.{sort_slice, sort_slice-first}
use crypto_exchange_lab.Matching.Book.{Order}
use crypto_exchange_lab.Matching.Depth.{
  PriceLevel, Levels, level, set_level, or_zero, note_price, collect, aggregate_side,
}

module _ ⦃d : Decimal⦄ where
  note_price-front :
      (l : Option Amount) (x p : Amount) (ps : List Amount)
      → note_price l x (p ∷ ps) ≡ p ∷ note_price l x ps
  note_price-front none x p ps = refl
  note_price-front (some a) x p ps = refl

  next_prices-front :
      (b : Bool) (l : Option Amount) (x p : Amount) (ps : List Amount)
      → (if b then p ∷ ps else note_price l x (p ∷ ps)) ≡ p ∷ (if b then ps else note_price l x ps)
  next_prices-front true l x p ps = refl
  next_prices-front false l x p ps = note_price-front l x p ps

  -- A price that was met stays at the front of the prices.
  collect-front :
      (os : List Order) (m : Levels) (p : Amount) (ps : List Amount)
      → collect os m (p ∷ ps) ≡ ((collect os m ps).0, p ∷ (collect os m ps).1)
  unfolding collect
  collect-front [] m p ps = refl
  collect-front (o ∷ os) m p ps =
      ap (collect os _)
        (next_prices-front (is_zero o.remaining) (level (d.text o.price) m) o.price p ps)
      ∙ collect-front os _ p _

  first_collected :
      (b : Bool) (p : Amount) (os : List Order) (m : Levels)
      → b ≡ false
      → (collect os (if b then [] else m) (if b then [] else p ∷ [])).1 ≡ p ∷ (collect os m []).1
  first_collected true p os m h = absurd cc
  first_collected false p os m h = ap (λ x. x.1) (collect-front os m p [])

  module _ (P : Amount → Type 0) where
    note_price-All :
        (l : Option Amount) (x : Amount) (ps : List Amount)
        → P x
        → All P ps
        → All P (note_price l x ps)
    note_price-All none x ps h k = All-append P ps (x ∷ []) k (h, tt)
    note_price-All (some a) x ps h k = k

    next_prices-All :
        (b : Bool) (l : Option Amount) (x : Amount) (ps : List Amount)
        → P x
        → All P ps
        → All P (if b then ps else note_price l x ps)
    next_prices-All true l x ps h k = k
    next_prices-All false l x ps h k = note_price-All l x ps h k

    collect-All :
        (os : List Order) (m : Levels) (ps : List Amount)
        → All (λ (o : Order). P o.price) os
        → All P ps
        → All P (collect os m ps).1
    unfolding collect
    collect-All [] m ps h k = k
    collect-All (o ∷ os) m ps h k =
        collect-All os _ _ h.1
          (next_prices-All (is_zero o.remaining) (level (d.text o.price) m) o.price ps h.0 k)

  -- The order in which the prices of a side are shown.
  abbrev pub shown_before : Bool → Amount → Amount → Bool
  shown_before is_bid = if is_bid then greater else less

  abbrev shown : Levels → ℕ → List Amount → List PriceLevel
  shown m n ps =
      map (λ p. record { price = d.text p; quantity = d.text (or_zero (level (d.text p) m)) })
        (if ltb n (length ps) then take n ps else ps)

  shown-first :
      (m : Levels) (n : ℕ) (p : Amount) (ps : List Amount)
      → (rest : List String) × (map (λ (l : PriceLevel). l.price) (shown m (suc n) (p ∷ ps))
          ≡ d.text p ∷ rest)
  shown-first m n p ps = elim (Bool-cases (ltb (suc n) (length (p ∷ ps)))) [
    | inl e ↦ rw e (_, refl)
    | inr e ↦ rw e (_, refl)
  ]

  -- Where a live order stands first and no other has a better price, its price is the first shown.
  pub aggregate_side-best :
      (o : Order) (os : List Order) (n : ℕ) (is_bid : Bool)
      → is_zero o.remaining ≡ false
      → All (λ (x : Order). shown_before is_bid x.price o.price ≡ false) os
      → (rest : List String) × (map
            (λ (l : PriceLevel). l.price)
            (aggregate_side (o ∷ os) (suc n) is_bid)
          ≡ d.text o.price ∷ rest)
  unfolding aggregate_side collect level set_level
  aggregate_side-best o os n is_bid live h =
      let (rest, e) = shown-first m n o.price (sort_slice (shown_before is_bid) ps) in
      (rest, ap (λ ps. map (λ (l : PriceLevel). l.price) (shown m (suc n) ps)) sorted ∙ e)
    where
      start : Levels
      start = set_level (d.text o.price) (nil ⊕ o.remaining) []

      m : Levels
      m = (collect (o ∷ os) [] []).0

      ps : List Amount
      ps = (collect os start []).1

      all : (collect (o ∷ os) [] []).1 ≡ o.price ∷ ps
      all = first_collected (is_zero o.remaining) o.price os start live

      sorted :
          sort_slice (shown_before is_bid) (collect (o ∷ os) [] []).1
          ≡ o.price ∷ sort_slice (shown_before is_bid) ps
      sorted =
          ap (sort_slice (shown_before is_bid)) all
          ∙ sort_slice-first (shown_before is_bid) o.price ps
              (collect-All (λ p. shown_before is_bid p o.price ≡ false) os start [] h tt)

  -- An empty side has no levels.
  pub aggregate_side-empty : (n : ℕ) (is_bid : Bool) → aggregate_side [] (suc n) is_bid ≡ []
  unfolding aggregate_side collect sort_slice
  aggregate_side-empty n is_bid = elim (Bool-cases (ltb (suc n) 0)) [
    | inl e ↦ rw e refl
    | inr e ↦ rw e refl
  ]
