-- ===== src/Matching/Depth/Levels.antt =====
-- What the depth of a side shows: at most the levels asked for, each with all that rests there.
use crypto_exchange_lab.Prelude.{
  ℕ, zero, suc, ◌≤◌, ◌≡◌, refl, sym, ap, ◌∙◌, Bool, String, List, [], ◌∷◌, map, some, if◌then◌else◌,
  ltb, ◌==◌, eq_iff, All, length, take, arith,
}
use crypto_exchange_lab.Decimal.{Decimal, Amount, nil, ◌⊕◌, is_zero, greater, less}
use crypto_exchange_lab.Decimal.Laws.{plus-zero, plus_left_zero, plus_assoc, eq_of_cmp}
use crypto_exchange_lab.Sort.{sort_slice}
use crypto_exchange_lab.Matching.Book.{Order}
use crypto_exchange_lab.Matching.Depth.{
  PriceLevel, Levels, level, set_level, or_zero, collect, aggregate_side,
}

module _ ⦃d : Decimal⦄ where
  level-set_level :
      (m : Levels) (key : String) (q : Amount) (asked : String)
      → level asked (set_level key q m) ≡ (if key == asked then some q else level asked m)
  unfolding level set_level
  level-set_level [] key q asked = refl
  level-set_level (e ∷ m) key q asked =
      ground
        (arith, level-set_level m key q asked, eq_iff e.0 asked, eq_iff e.0 key, eq_iff key asked)

  -- All that rests at the prices that print as the text.
  unfoldable pub total_at : String → List Order → Amount
  total_at k [] = nil
  total_at k (o ∷ os) = if d.text o.price == k then o.remaining ⊕ total_at k os else total_at k os

  note-level :
      (k : String) (o : Order) (m : Levels) (x : Amount)
      → let key = d.text o.price in
        or_zero (
            level k (
              if is_zero o.remaining
              then m
              else set_level key (or_zero (level key m) ⊕ o.remaining) m))
          ⊕ x
        ≡ or_zero (level k m) ⊕ (if key == k then o.remaining ⊕ x else x)
  note-level k o m x = ground (
    arith,
    level-set_level m (d.text o.price) (or_zero (level (d.text o.price) m) ⊕ o.remaining) k,
    eq_iff (d.text o.price) k,
    eq_of_cmp o.remaining nil,
    plus_left_zero x,
    plus_assoc (or_zero (level (d.text o.price) m)) o.remaining x,
  )

  -- Under each printed price the map holds what was there and all that rests at it.
  pub collect-level :
      (k : String) (os : List Order) (m : Levels) (prices : List Amount)
      → or_zero (level k (collect os m prices).0) ≡ or_zero (level k m) ⊕ total_at k os
  unfolding collect total_at
  collect-level k [] m prices = sym (plus-zero (or_zero (level k m)))
  collect-level k (o ∷ os) m prices = collect-level k os _ _ ∙ note-level k o m (total_at k os)

  -- A level shows all that rests at its price.
  abbrev pub IsComplete : List Order → PriceLevel → Type 0
  IsComplete os l = l.quantity ≡ d.text (total_at l.price os)

  shown-IsComplete :
      (os : List Order) (ps : List Amount)
      → All (IsComplete os) (
          map
            (λ p. record {
              price = d.text p;
              quantity = d.text (or_zero (level (d.text p) (collect os [] []).0));
            })
            ps)
  unfolding level
  shown-IsComplete os [] = tt
  shown-IsComplete os (p ∷ ps) = (
    ap d.text (collect-level (d.text p) os [] [] ∙ plus_left_zero (total_at (d.text p) os)),
    shown-IsComplete os ps,
  )

  -- Every level of `aggregateSide` shows the sum of what is left of the orders at its price.
  pub aggregate_side-IsComplete :
      (os : List Order) (levels : ℕ) (is_bid : Bool)
      → All (IsComplete os) (aggregate_side os levels is_bid)
  unfolding aggregate_side
  aggregate_side-IsComplete os levels is_bid = shown-IsComplete os _

  length-map : {A B : Type 0} (f : A → B) (xs : List A) → length (map f xs) ≡ length xs
  length-map f [] = refl
  length-map f (x ∷ xs) = ap suc (length-map f xs)

  length-take-le : {A : Type 0} (n : ℕ) (xs : List A) → length (take n xs) ≤ n
  length-take-le zero xs = omega arith
  length-take-le (suc n) [] = omega arith
  length-take-le (suc n) (x ∷ xs) = omega (arith, length-take-le n xs)

  -- `aggregateSide` shows no more levels than it is asked for.
  pub length-aggregate_side :
      (os : List Order) (levels : ℕ) (is_bid : Bool)
      → length (aggregate_side os levels is_bid) ≤ levels
  unfolding aggregate_side
  length-aggregate_side os levels is_bid =
      let sorted = sort_slice (if is_bid then greater else less) (collect os [] []).1 in
      rw (length-map _ (if ltb levels (length sorted) then take levels sorted else sorted))
        (ground (arith, length-take-le levels sorted))
