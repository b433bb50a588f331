-- ===== src/Orders/Filled.antt =====
-- The fills that `PlaceOrder` counts, and what its calls make of the row of its order.
use crypto_exchange_lab.Prelude.{
  ◌≡◌, ◌≢◌, sym, subst, ap, ◌∙◌, Bool, true, false, String, List, [], ◌∷◌, ◌++◌, none, some,
  if◌then◌else◌, ◌==◌, ◌||◌, eq_refl, inl, inr, Option-cases, arith, length,
}
use mathlib.Core.List.{append_assoc, append-nil}
use crypto_exchange_lab.Decimal.{Decimal, Amount, nil, ◌⊕◌, ◌≼◌, less, greater}
use crypto_exchange_lab.Decimal.Laws.{
  cmp_flip_gt, cmp_refl, eq_of_cmp, flip_of_le, le_of_lt, plus_nonneg,
}
use crypto_exchange_lab.Decimal.Order.{pos_of_greater}
use crypto_exchange_lab.Exchange.{OrderStatus}
use crypto_exchange_lab.Errors.{Result, ok, err}
use crypto_exchange_lab.Stateful.{
  Stateful, Keeps, anyway, or_undo, bind_action, within_ok, or_undo_ok,
}
use crypto_exchange_lab.Orders.Store.{
  Symbol, Order, Trade, get_order, insert_trade, create_order, update_order_fill, with_fill,
}
use crypto_exchange_lab.Orders.OwnRow.{HasRow, get-fill_own}
use crypto_exchange_lab.Orders.Released.{with_rows}
use crypto_exchange_lab.Orders.Settle.{MatchTrade}
use crypto_exchange_lab.Orders.Flow.{
  Engine, Draws, Desk, kept_rows, on_orders, record_trade, trade_row, is_party, settle_all,
  final_status,
}

module _ ⦃d : Decimal⦄ where
  -- What the trades that name the order fill of it, on top of an amount.
  abbrev pub add_up : String → Amount → List Trade → Amount
  add_up i x [] = x
  add_up i x (t ∷ ts) =
      add_up i (if t.buy_order_id == i || t.sell_order_id == i then x ⊕ t.quantity else x) ts

  -- The status of an order of which an amount is filled.
  abbrev pub told_status : Bool → Amount → Amount → OrderStatus
  told_status resting filled quantity =
      if less filled quantity
      then (if greater filled nil
          then OrderStatus.partially_filled
          else (if resting then OrderStatus.new_order else OrderStatus.cancelled))
      else OrderStatus.filled

  pub told_status_lem :
      (resting : Bool) (filled quantity : Amount)
      → nil ≼ filled
      → final_status resting filled quantity ≡ told_status resting filled quantity
  unfolding final_status
  told_status_lem resting filled quantity h = ground (
    arith,
    h,
    flip_of_le nil filled h,
    cmp_flip_gt filled nil,
    eq_of_cmp filled nil,
    cmp_refl nil,
  )

  record_trade_ok :
      (t : Trade) (w w' : Desk) → record_trade t w ≡ (ok tt, w') → greater t.quantity nil ≡ true
  unfolding record_trade insert_trade
  record_trade_ok t w w' h = ground arith

  added : (b : Bool) (x q : Amount) → nil ≼ x → nil ≼ q → nil ≼ (if b then x ⊕ q else x)
  added true x q h k = plus_nonneg x q h k
  added false x q h k = h

  abbrev pub value {ℓ} : {A : Type ℓ} → Result A → A → A
  value (ok a) b = a
  value (err e) b = b

  -- The loop over the matches: what it says is filled is what the trades that it recorded add up to.
  pub settle_all_told :
      (e : Engine) (draws : Draws) (market : Symbol) (mts : List MatchTrade) (filled : Amount)
      (recorded : List Trade) (w w' : Desk) (f : Amount) (rs : List Trade)
      → settle_all e draws market mts filled recorded w ≡ (ok (f, rs), w')
      → nil ≼ filled
      → (new : List Trade) × (rs ≡ recorded ++ new)
        × (f ≡ add_up draws.order_id filled new)
        × (nil ≼ f)
  unfolding settle_all
  settle_all_told e draws market [] filled recorded w w' f rs h pos =
      let same_sum : filled ≡ f =
        ap (λ x. (value {A = Amount × List Trade} x.0 (filled, recorded)).0) h in
      let same_rows : recorded ≡ rs =
        ap (λ x. (value {A = Amount × List Trade} x.0 (filled, recorded)).1) h in
      (
        [],
        sym same_rows ∙ sym (append-nil recorded),
        sym same_sum,
        subst (λ x. nil ≼ x) same_sum pos,
      )
  settle_all_told e draws market (mt ∷ rest) filled recorded w w' f rs h pos =
      let row : Trade = trade_row e market mt (draws.row_id (length recorded)) in
      let (u1, w1, h1, k1) = bind_action _ _ w w' _ h in
      let (u2, w2, h2, k2) = bind_action _ _ w1 w' _ k1 in
      let (u3, w3, h3, k3) = bind_action _ _ w2 w' _ k2 in
      let some_sold : nil ≼ row.quantity =
        le_of_lt nil row.quantity (pos_of_greater row.quantity (record_trade_ok row w1 w2 h2)) in
      let (new, same, sum, pos') =
        settle_all_told e draws market rest
          (if is_party draws.order_id mt then filled ⊕ row.quantity else filled)
          (recorded ++ row ∷ []) w3 w' f rs k3
          (added (is_party draws.order_id mt) filled row.quantity pos some_sold) in
      (row ∷ new, same ∙ append_assoc recorded (row ∷ []) new, sum, pos')

  -- A call keeps a property up to the state that it leaves.
  pub carried {ℓ} :
      {A : Type ℓ} (Fine : Desk → Type 0) (m : Stateful Desk A) (w w' : Desk) (r : Result A)
      → Keeps Fine m
      → m w ≡ (r, w')
      → Fine w
      → Fine w'
  carried Fine m w w' r k h s = subst Fine (ap (λ x. x.1) h) (k.keeps w s)

  created_row :
      (o : Order) (os after : List Order)
      → kept_rows (create_order o os) ≡ ok after
      → get_order o.id after ≡ some o
  unfolding create_order get_order
  created_row o os after h = ground (arith, eq_refl o.id)

  pub create_order_told :
      (o : Order) (undo : Stateful {0} Desk Unit) (w w' : Desk)
      → or_undo (on_orders (create_order o)) undo w ≡ (ok tt, w')
      → HasRow o.id o w'
  create_order_told o undo w w' h =
      let (os, e, same) =
        within_ok (λ (w : Desk). w.orders.orders) with_rows (λ os. kept_rows (create_order o os)) w
          w' (or_undo_ok _ undo w tt w' h) in
      subst (HasRow o.id o) (sym same) (created_row o w.orders.orders os e)

  fill_allowed :
      (i : String) (f : Amount) (st : OrderStatus) (os : List Order)
      → nil ≼ f
      → update_order_fill i f st os ≢ none
  unfolding update_order_fill
  fill_allowed i f st os pos e = ground (arith, flip_of_le nil f pos)

  pub fill_told :
      (i : String) (o : Order) (f : Amount) (st : OrderStatus) (w w' : Desk)
      → nil ≼ f
      → HasRow i o w
      → anyway (on_orders (update_order_fill i f st)) w ≡ (ok tt, w')
      → HasRow i (with_fill f st o) w'
  fill_told i o f st w w' pos row h =
      elim (Option-cases (update_order_fill i f st w.orders.orders)) [
        | inl e ↦ absurd (fill_allowed i f st w.orders.orders pos e)
        | inr (after, e) ↦
            subst (HasRow i (with_fill f st o)) (ap (λ x. x.1) h)
              (rw e (get-fill_own i f st w.orders.orders after o row e))
      ]
