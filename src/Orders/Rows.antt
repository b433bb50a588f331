-- ===== src/Orders/Rows.antt =====
-- The order table: what its constraints promise, and that the statements on it keep that.
use crypto_exchange_lab.Prelude.{
  ◌≡◌, refl, ap, subst, ◌∙◌, true, false, String, List, [], ◌∷◌, some, ◌==◌, ◌||◌, ◌&&◌, not, arith,
  inl, inr, Bool-cases, Option-cases, All,
}
use crypto_exchange_lab.Decimal.{Decimal, Amount, nil, less}
use crypto_exchange_lab.Exchange.{OrderStatus}
use crypto_exchange_lab.Orders.Store.{
  Order, has_order, is_allowed_order, create_order, with_fill, change_order, update_order_fill,
  open_order, get_order, cancelled, cancel_order,
}

module _ ⦃d : Decimal⦄ where
  -- No two rows have the same id.
  abbrev pub AllDistinct : List Order → Type 0
  AllDistinct [] = Unit
  AllDistinct (o ∷ os) = (has_order o.id os ≡ false) × AllDistinct os

  -- Every row has a positive quantity, a filled quantity that is not negative, and a side and a type
  -- of the enumerations; ids are unique.
  pub record AreRows (os : List Order) : Type 0 where
    pub allowed : All (λ o. is_allowed_order o ≡ true) os
    pub distinct : AllDistinct os

  pub create_order-AreRows :
      (o : Order) (os after : List Order)
      → create_order o os ≡ some after
      → AreRows os
      → AreRows after
  unfolding create_order
  create_order-AreRows o os after h r =
      elim (Bool-cases (is_allowed_order o && not (has_order o.id os))) [
        | inl e ↦
            let made : AreRows (o ∷ os) = record {
              allowed = (ground arith, r.allowed);
              distinct = (ground arith, r.distinct);
            } in
            subst AreRows (ground arith) made
        | inr e ↦ absurd (ground arith)
      ]

  has_order-change_order :
      (i j : String) (f : Order → Order) (os : List Order)
      → ((o : Order) → (f o).id ≡ o.id)
      → has_order j (change_order i f os) ≡ has_order j os
  unfolding change_order
  has_order-change_order i j f [] same = refl
  has_order-change_order i j f (o ∷ os) same = elim (Bool-cases (o.id == i)) [
    | inl e ↦ rw e (ap (λ x. x == j || has_order j os) (same o))
    | inr e ↦ rw e (ap (λ x. o.id == j || x) (has_order-change_order i j f os same))
  ]

  -- A change of one row that keeps its id, and the constraints on it.
  pub change_order-AreRows :
      (i : String) (f : Order → Order) (os : List Order)
      → ((o : Order) → (f o).id ≡ o.id)
      → ((o : Order) → is_allowed_order o ≡ true → is_allowed_order (f o) ≡ true)
      → AreRows os
      → AreRows (change_order i f os)
  unfolding change_order
  change_order-AreRows i f [] same keep r = r
  change_order-AreRows i f (o ∷ os) same keep r = elim (Bool-cases (o.id == i)) [
    | inl e ↦ rw e (record {
      allowed = (keep o r.allowed.0, r.allowed.1);
      distinct = (ap (λ x. has_order x os) (same o) ∙ r.distinct.0, r.distinct.1);
    })
    | inr e ↦
        let rest =
          change_order-AreRows i f os same keep
            (record { allowed = r.allowed.1; distinct = r.distinct.1 }) in
        rw e (record {
          allowed = (r.allowed.0, rest.allowed);
          distinct = (has_order-change_order i o.id f os same ∙ r.distinct.0, rest.distinct);
        })
  ]

  pub update_order_fill-AreRows :
      (i : String) (x : Amount) (s : OrderStatus) (os after : List Order)
      → update_order_fill i x s os ≡ some after
      → AreRows os
      → AreRows after
  unfolding update_order_fill
  update_order_fill-AreRows i x s os after h r = elim (Bool-cases (less x nil)) [
    | inl e ↦ absurd (ground arith)
    | inr e ↦
        subst AreRows (ground arith)
          (change_order-AreRows i (with_fill x s) os (λ o. refl) (λ o k. ground (arith, k, e)) r)
  ]

  pub cancel_order-AreRows :
      (i : String) (os after : List Order) (o : Order)
      → cancel_order i os ≡ some (o, after)
      → AreRows os
      → AreRows after
  unfolding cancel_order
  cancel_order-AreRows i os after o h r = elim (Option-cases (open_order (get_order i os))) [
    | inl e ↦ absurd (ground arith)
    | inr (x, e) ↦
        subst AreRows (ground arith) (change_order-AreRows i cancelled os (λ o. refl) (λ o k. k) r)
  ]
