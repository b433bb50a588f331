-- ===== src/Orders/OwnRow.antt =====
-- The row of an order while `PlaceOrder` works on it.
use crypto_exchange_lab.Prelude.{
  ◌≡◌, refl, ap, ◌∙◌, true, false, String, List, [], ◌∷◌, Option, none, some, ◌==◌, eq_iff, inl,
  inr, Bool-cases, Option-cases, arith,
}
use crypto_exchange_lab.Decimal.{Decimal, Amount, ◌⊕◌}
use crypto_exchange_lab.Exchange.{OrderStatus}
use crypto_exchange_lab.Stateful.{within-Keeps, update-Keeps}
use crypto_exchange_lab.Orders.Store.{
  Order, get_order, change_order, with_fill, update_order_fill, insert_trade,
}
use crypto_exchange_lab.Orders.Flow.{
  Engine, Desk, submit, kept_tables, set_orders, record_trade, fill_status, note_fill, note_maker,
  note_makers,
}
use crypto_exchange_lab.Orders.Keeping.{insert_trade-orders}
use crypto_exchange_lab.Orders.Kept.{IsKept}

module _ ⦃d : Decimal⦄ where
  pub get_order-id :
      (i : String) (os : List Order) (o : Order) → get_order i os ≡ some o → (o.id == i) ≡ true
  unfolding get_order
  get_order-id i [] o h = absurd cc
  get_order-id i (x ∷ xs) o h = elim (Bool-cases (x.id == i)) [
    | inl e ↦ ground (arith, e, h)
    | inr e ↦ get_order-id i xs o (rw e at h)
  ]

  module _ (f : Order → Order) (same : (o : Order) → (f o).id ≡ o.id) where
    get-change_other :
        (i j : String) (os : List Order)
        → (j == i) ≡ false
        → get_order i (change_order j f os) ≡ get_order i os
    unfolding get_order change_order
    get-change_other i j [] h = refl
    get-change_other i j (o ∷ os) h = ground (
      arith,
      same o,
      eq_iff j i,
      eq_iff o.id i,
      eq_iff o.id j,
      eq_iff (f o).id i,
      get-change_other i j os h,
    )

    pub get-change_own :
        (i : String) (os : List Order) (o : Order)
        → get_order i os ≡ some o
        → get_order i (change_order i f os) ≡ some (f o)
    unfolding get_order change_order
    get-change_own i [] o h = absurd cc
    get-change_own i (x ∷ xs) o h =
        ground (arith, same x, eq_iff x.id i, eq_iff (f x).id i, get-change_own i xs o)

  -- The row of the order is there, with these columns.
  abbrev pub HasRow : String → Order → Desk → Type 0
  HasRow i o w = get_order i w.orders.orders ≡ some o

  get-fill_other :
      (i j : String) (x : Amount) (st : OrderStatus) (os after : List Order)
      → (j == i) ≡ false
      → update_order_fill j x st os ≡ some after
      → get_order i after ≡ get_order i os
  unfolding update_order_fill
  get-fill_other i j x st os after h e =
      ground (arith, get-change_other (with_fill x st) (λ o. refl) i j os h)

  -- A fill that is not negative is written to the row.
  pub get-fill_own :
      (i : String) (x : Amount) (st : OrderStatus) (os after : List Order) (o : Order)
      → get_order i os ≡ some o
      → update_order_fill i x st os ≡ some after
      → get_order i after ≡ some (with_fill x st o)
  unfolding update_order_fill
  get-fill_own i x st os after o h e =
      ground (arith, get-change_own (with_fill x st) (λ o. refl) i os o h)

  note_fill-other :
      (i oid : String) (q : Amount) (o : Option Order) (os : List Order)
      → (oid == i) ≡ false
      → get_order oid os ≡ o
      → get_order i (note_fill q o os) ≡ get_order i os
  unfolding note_fill
  note_fill-other i oid q none os h e = refl
  note_fill-other i oid q (some co) os h e =
      elim (Option-cases (
        update_order_fill co.id (co.filled_qty ⊕ q) (fill_status (co.filled_qty ⊕ q) co.quantity)
          os)) [
            | inl z ↦ rw (z, note_fill) refl
            | inr (after, z) ↦
                rw (z, note_fill)
                  (get-fill_other i co.id (co.filled_qty ⊕ q)
                    (fill_status (co.filled_qty ⊕ q) co.quantity) os after named z)
          ]
    where
      named : (co.id == i) ≡ false
      named =
          ground
            (arith, h, get_order-id oid os co e, eq_iff co.id oid, eq_iff oid i, eq_iff co.id i)

  note_maker-own :
      (i : String) (q : Amount) (oid : String) (os : List Order)
      → get_order i (note_maker i q oid os) ≡ get_order i os
  unfolding note_maker
  note_maker-own i q oid os = elim (Bool-cases (oid == i)) [
    | inl e ↦ rw (e, note_maker) refl
    | inr e ↦ rw (e, note_maker) (note_fill-other i oid q (get_order oid os) os e refl)
  ]

  -- The calls between CreateOrder and the order's own fill leave its row.
  pub order_flow-HasRow : (e : Engine) (i : String) (o : Order) → IsKept (HasRow i o) e i
  unfolding submit record_trade note_makers
  order_flow-HasRow e i o = record {
    posted = λ f h. within-Keeps (HasRow i o) _ _ f λ w t e s. s;
    sent = λ times req v. record { keeps = λ w s. s };
    traded = λ t.
        within-Keeps (HasRow i o) (λ (w : Desk). w.orders) set_orders
          (λ tables. kept_tables (insert_trade t tables))
          λ w tables e s. ap (get_order i) (insert_trade-orders t w.orders tables e) ∙ s;
    noted = λ q mt. update-Keeps (HasRow i o) _ λ w s.
        note_maker-own i q mt.sell_order_id (note_maker i q mt.buy_order_id w.orders.orders)
        ∙ note_maker-own i q mt.buy_order_id w.orders.orders
        ∙ s;
  }
