-- ===== src/Matching/Priority.antt =====
-- The comparators of book.go are strict orders: by price, then by time.
use crypto_exchange_lab.Prelude.{◌≡◌, true, false, Ordering, arith}
use crypto_exchange_lab.Decimal.{Decimal, cmp, ◌≼◌}
use crypto_exchange_lab.Decimal.Laws.{cmp_flip, cmp_flip_gt, eq_of_cmp, cmp_refl, lt_trans}
use crypto_exchange_lab.Matching.Book.{Order, bid_before, ask_before}

module _ ⦃d : Decimal⦄ where
  pub ask_before_asym : (x y : Order) → ask_before x y ≡ true → ask_before y x ≡ false
  unfolding ask_before
  ask_before_asym x y h =
      ground (arith, cmp_flip x.price y.price, eq_of_cmp x.price y.price, cmp_refl x.price)

  pub bid_before_asym : (x y : Order) → bid_before x y ≡ true → bid_before y x ≡ false
  unfolding bid_before
  bid_before_asym x y h =
      ground (arith, cmp_flip_gt x.price y.price, eq_of_cmp x.price y.price, cmp_refl x.price)

  pub ask_before_trans :
      (x y z : Order) → ask_before x y ≡ true → ask_before y z ≡ true → ask_before x z ≡ true
  unfolding ask_before
  ask_before_trans x y z h k = ground (
    arith,
    eq_of_cmp x.price y.price,
    eq_of_cmp y.price z.price,
    lt_trans x.price y.price z.price,
  )

  gt_trans :
      (x y z : Order)
      → cmp x.price y.price ≡ Ordering.gt
      → cmp y.price z.price ≡ Ordering.gt
      → cmp x.price z.price ≡ Ordering.gt
  gt_trans x y z h k = cmp_flip z.price x.price (
      lt_trans z.price y.price x.price (cmp_flip_gt y.price z.price k)
        (cmp_flip_gt x.price y.price h))

  pub bid_before_trans :
      (x y z : Order) → bid_before x y ≡ true → bid_before y z ≡ true → bid_before x z ≡ true
  unfolding bid_before
  bid_before_trans x y z h k =
      ground (arith, eq_of_cmp x.price y.price, eq_of_cmp y.price z.price, gt_trans x y z)

  -- An ask that does not stand before another asks at least as much.
  pub ask_price-le : (x y : Order) → ask_before y x ≡ false → x.price ≼ y.price
  unfolding ask_before
  ask_price-le x y h k = ground (arith, cmp_flip_gt x.price y.price)

  -- A bid that does not stand before another bids at most as much.
  pub bid_price-le : (x y : Order) → bid_before y x ≡ false → y.price ≼ x.price
  unfolding bid_before
  bid_price-le x y h k = ground arith
