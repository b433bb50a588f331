-- ===== src/Orders/Cancelling.antt =====
-- An order is cancelled at most once.
use crypto_exchange_lab.Prelude.{
  ap₂, ◌≡◌, refl, sym, ap, ◌∙◌, true, String, List, [], ◌∷◌, Option, none, some, ◌==◌, arith, inl,
  inr, Bool-cases, Option-cases,
}
use crypto_exchange_lab.Decimal.{Decimal, Amount, nil, greater}
use crypto_exchange_lab.Errors.{Code, Result, ok, err, fails}
use crypto_exchange_lab.Stateful.{written, ◌>>=◌, bind_action}
use crypto_exchange_lab.Account.Store.{Tables}
use crypto_exchange_lab.Hub.Books.{venue_text}
use crypto_exchange_lab.Orders.Store.{
  Order, get_order, change_order, cancelled, open_order, cancel_order,
}
use crypto_exchange_lab.Orders.Flow.{Engine, Desk, withdraw}
use crypto_exchange_lab.Orders.Withdrawal.{cancellable, give_back, cancelled_row, cancel_open}

module _ ⦃d : Decimal⦄ where
  get_order-change_order :
      (i : String) (o : Order) (os : List Order)
      → get_order i os ≡ some o
      → get_order i (change_order i cancelled os) ≡ some (cancelled o)
  unfolding get_order change_order
  get_order-change_order i o [] h = absurd (ground arith)
  get_order-change_order i o (x ∷ os) h = elim (Bool-cases (x.id == i)) [
    | inl e ↦ let same : x ≡ o = ground arith in rw (e, e) (ap (λ y. some (cancelled y)) same)
    | inr e ↦ rw (e, e) (get_order-change_order i o os (rw e at h))
  ]

  -- Giving collateral back does not touch the orders.
  give_back-orders :
      (e : Engine) (o : Order) (r : Result (String × Amount)) (w : Desk)
      → (give_back e o r w).1.orders ≡ w.orders
  give_back-orders e o (err f) w = refl
  give_back-orders e o (ok (asset, amt)) w = elim (Bool-cases (greater amt nil)) [
    | inl z ↦ rw z (written-orders w _)
    | inr z ↦ rw z refl
  ]
    where
      written-orders :
          (v : Desk) (r : Result Tables)
          → (written (λ t u. record u { account = t }) v r).1.orders ≡ v.orders
      written-orders v (ok t) = refl
      written-orders v (err f) = refl

  cancelled_row_ok :
      (w w' : Desk) (o : Order) (r : Option (Order × List Order))
      → cancelled_row w r ≡ (ok o, w')
      → r ≡ some (o, w'.orders.orders)
  cancelled_row_ok w w' o none h = absurd cc
  cancelled_row_ok w w' o (some (o', os)) h =
      let first : ok o' ≡ ok o = ap (λ x. x.0) h in
      let same : o' ≡ o = ground arith in
      ap₂ (λ a b. some (a, b)) same (ap (λ x. x.1.orders.orders) h)

  cancel_order_ok :
      (i : String) (os after : List Order) (o : Order)
      → cancel_order i os ≡ some (o, after)
      → after ≡ change_order i cancelled os
  unfolding cancel_order
  cancel_order_ok i os after o h = elim (Option-cases (open_order (get_order i os))) [
    | inl e ↦ absurd (ground arith)
    | inr (x, e) ↦ ground arith
  ]

  cancellable_ok :
      (e : Engine) (r : Option Order) (o : Order)
      → cancellable e r ≡ ok o
      → (r ≡ some o) × ((venue_text o.venue == venue_text e.venue) ≡ true)
  unfolding cancellable
  cancellable_ok e none o h = absurd cc
  cancellable_ok e (some x) o h = elim (Bool-cases (venue_text x.venue == venue_text e.venue)) [
    | inl v ↦
        let same : x ≡ o = ground arith in
        (ap some same, ap (λ y. venue_text y.venue == venue_text e.venue) (sym same) ∙ v)
    | inr v ↦ absurd (ground arith)
  ]

  -- The first call leaves the row cancelled.
  cancel_open-cancelled :
      (e : Engine) (i : String) (w w' : Desk) (r : Order)
      → cancel_open e i w ≡ (ok r, w')
      → (o : Order) × (get_order i w'.orders.orders ≡ some (cancelled o))
        × ((venue_text o.venue == venue_text e.venue) ≡ true)
  unfolding cancel_open withdraw
  cancel_open-cancelled e i w w' r h =
      let (o, w1, p1, h1) = bind_action _ _ w w' r h in
      let (u, w2, p2, h2) = bind_action _ _ w1 w' r h1 in
      let (sym2, w3, p3, h3) = bind_action _ _ w2 w' r h2 in
      let (u4, w4, p4, h4) = bind_action (give_back e o _) _ w3 w' r h3 in
      let found = cancellable_ok e (get_order i w.orders.orders) o (ap (λ x. x.0) p1) in
      let same1 : w.orders ≡ w1.orders = ap (λ x. x.1.orders) p1 in
      let same2 : w1.orders ≡ w2.orders = ap (λ x. x.1.orders) p2 in
      let same3 : w2.orders ≡ w3.orders = ap (λ x. x.1.orders) p3 in
      let same4 : w3.orders ≡ w4.orders =
        sym (give_back-orders e o _ w3) ∙ ap (λ x. x.1.orders) p4 in
      let same : w.orders ≡ w4.orders = same1 ∙ same2 ∙ same3 ∙ same4 in
      let row =
        cancel_order_ok i w4.orders.orders w'.orders.orders r
          (cancelled_row_ok w4 w' r (cancel_order i w4.orders.orders) h4) in
      (
        o,
        ap (get_order i) (row ∙ ap (λ x. change_order i cancelled x.orders) (sym same))
            ∙ get_order-change_order i o w.orders.orders found.0,
        found.1,
      )

  -- Once an order was cancelled, cancelling it again is refused as a conflict and changes nothing:
  -- no collateral is given back twice.
  pub cancel_open_again :
      (e : Engine) (i : String) (w w' : Desk) (r : Order)
      → cancel_open e i w ≡ (ok r, w')
      → cancel_open e i w' ≡ (fails Code.conflict "order not cancellable", w')
  unfolding cancel_open cancellable ◌>>=◌
  cancel_open_again e i w w' r h =
      let (o, row, v) = cancel_open-cancelled e i w w' r h in rw (row, v) refl
