-- ===== src/Orders/Told.antt =====
-- What `PlaceOrder` answers with.
use crypto_exchange_lab.Prelude.{
  ◌≡◌, refl, sym, subst, ap, ◌∙◌, Bool, String, List, [], Option, none, some,
}
use crypto_exchange_lab.Decimal.{Decimal, Amount, nil, ◌≼◌}
use crypto_exchange_lab.Decimal.Laws.{le_refl}
use crypto_exchange_lab.Exchange.{OrderStatus}
use crypto_exchange_lab.Errors.{Failure, ok}
use crypto_exchange_lab.Stateful.{
  ◌>>=◌, Stateful, ask, found, anyway, or_undo, bind_action, or_undo_ok,
}
use crypto_exchange_lab.Account.Handler.{parse}
use crypto_exchange_lab.Perps.Client.{send_freeze, send_unfreeze}
use crypto_exchange_lab.Orders.Store.{
  Symbol, Order, Trade, get_order, create_order, update_order_fill, with_fill,
}
use crypto_exchange_lab.Orders.OwnRow.{HasRow, order_flow-HasRow}
use crypto_exchange_lab.Orders.Kept.{settle_all-Keeps, release-Keeps}
use crypto_exchange_lab.Orders.Flow.{
  Engine, Draws, PlaceOrderRequest, Desk, on_orders, settle_all, final_status, release_unless,
  release_remaining, place_order, on_account, new_order, submit, submit_req,
}
use crypto_exchange_lab.Orders.Filled.{
  value, carried, add_up, told_status, told_status_lem, settle_all_told, create_order_told,
  fill_told,
}

module _ ⦃d : Decimal⦄ where
  -- The parts of an order that PlaceOrder writes once, and what it writes of the fills.
  abbrev pub IsTold : Draws → PlaceOrderRequest → Order → List Trade → Type 0
  IsTold draws req o ts =
      (o.id ≡ draws.order_id)
      × (o.user_id ≡ req.user_id)
      × (parse req.quantity ≡ ok o.quantity)
      × (o.filled_qty ≡ add_up draws.order_id nil ts)
      × ((resting : Bool) × (o.status ≡ told_status resting o.filled_qty o.quantity))

  abbrev finished :
      Engine
      → Draws
      → PlaceOrderRequest
      → Symbol
      → Amount
      → Amount
      → Bool
      → Amount × List Trade
      → Stateful Desk (Order × List Trade)
  finished e draws req market qty price resting done = do
    _ ←
        anyway
          (on_orders (update_order_fill draws.order_id done.0 (final_status resting done.0 qty)))
    _ ← release_unless resting (release_remaining e req.side market draws.order_id qty price done.0)
    o ← ask (λ w. found Failure.plain (get_order draws.order_id w.orders.orders))
    ask (λ w. ok (o, done.1))

  found_ok {ℓ} : {A : Type ℓ} (f : Failure) (x : Option A) (a : A) → found f x ≡ ok a → x ≡ some a
  found_ok f none a h = absurd cc
  found_ok f (some b) a h = ap some (ap (λ r. value r b) h)

  -- The end of PlaceOrder: the row with what was filled, and the trades.
  finished_told :
      (e : Engine) (draws : Draws) (req : PlaceOrderRequest) (market : Symbol) (qty price : Amount)
      (resting : Bool) (done : Amount × List Trade) (row : Order) (w w' : Desk) (o : Order)
      (ts : List Trade)
      → finished e draws req market qty price resting done w ≡ (ok (o, ts), w')
      → HasRow draws.order_id row w
      → nil ≼ done.0
      → (o ≡ with_fill done.0 (final_status resting done.0 qty) row)
        × (ts ≡ done.1)
        × HasRow draws.order_id o w'
  finished_told e draws req market qty price resting done row w w' o ts h has pos =
      let i = draws.order_id in
      let st = final_status resting done.0 qty in
      let (u1, w1, h1, k1) = bind_action _ _ w w' _ h in
      let (u2, w2, h2, k2) = bind_action _ _ w1 w' _ k1 in
      let (last, w3, h3, k3) = bind_action _ _ w2 w' _ k2 in
      let filled_row : HasRow i (with_fill done.0 st row) w2 =
        carried (HasRow i (with_fill done.0 st row)) _ w1 w2 (ok u2)
          (release-Keeps (HasRow i (with_fill done.0 st row)) e i (order_flow-HasRow e i _) resting
            req.side market i qty price done.0)
          h2 (fill_told i row done.0 st w w1 pos has h1) in
      let read : get_order i w2.orders.orders ≡ some last =
        found_ok Failure.plain _ last (ap (λ x. x.0) h3) in
      let same : last ≡ o = ap (λ x. (value {A = Order × List Trade} x.0 (last, done.1)).0) k3 in
      (
        sym same ∙ given (sym read ∙ filled_row),
        sym (ap (λ x. (value {A = Order × List Trade} x.0 (last, done.1)).1) k3),
        subst (HasRow i o) (ap (λ x. x.1) h3 ∙ ap (λ x. x.1) k3) (read ∙ ap some same),
      )
    where
      given : {a b : Order} → some a ≡ some b → a ≡ b
      given {a} e = ap (λ x. elim x [ none ↦ a | some y ↦ y ]) e

  abbrev matched :
      Engine
      → Draws
      → PlaceOrderRequest
      → Symbol
      → Amount
      → Amount
      → Stateful {0} Desk Unit
      → Stateful Desk (Order × List Trade)
  matched e draws req market qty price undo = do
    res ← or_undo (submit draws.times (submit_req e req draws.order_id market qty price)) undo
    done ← settle_all e draws market res.trades nil []
    finished e draws req market qty price res.resting done

  -- From the row that was created on.
  matched_told :
      (e : Engine) (draws : Draws) (req : PlaceOrderRequest) (market : Symbol) (qty price : Amount)
      (undo : Stateful {0} Desk Unit) (row : Order) (w w' : Desk) (o : Order) (ts : List Trade)
      → matched e draws req market qty price undo w ≡ (ok (o, ts), w')
      → HasRow draws.order_id row w
      → (resting : Bool) × (o
          ≡ with_fill
              (add_up draws.order_id nil ts)
              (told_status resting (add_up draws.order_id nil ts) qty)
              row)
        × HasRow draws.order_id o w'
  matched_told e draws req market qty price undo row w w' o ts h has =
      let i = draws.order_id in
      let kept = order_flow-HasRow e i row in
      let (res, w1, h1, k1) = bind_action _ _ w w' _ h in
      let (done, w2, h2, k2) = bind_action _ _ w1 w' _ k1 in
      let sent : HasRow i row w1 =
        carried (HasRow i row) _ w w1 (ok res)
          (kept.sent draws.times (submit_req e req i market qty price) refl)
          (or_undo_ok _ undo w res w1 h1) has in
      let settled : HasRow i row w2 =
        carried (HasRow i row) _ w1 w2 (ok done)
          (settle_all-Keeps (HasRow i row) e i kept draws market res.trades nil [] refl) h2 sent in
      let (new, rows, sum, pos) =
        settle_all_told e draws market res.trades nil [] w1 w2 done.0 done.1 h2 (le_refl nil) in
      let (told, given, found) =
        finished_told e draws req market qty price res.resting done row w2 w' o ts k2 settled pos in
      let total : done.0 ≡ add_up i nil ts = sum ∙ ap (add_up i nil) (sym (given ∙ rows)) in
      (
        res.resting,
        told
            ∙ ap (λ st. with_fill done.0 st row) (told_status_lem res.resting done.0 qty pos)
            ∙ ap (λ f. with_fill f (told_status res.resting f qty) row) total,
        found,
      )

  abbrev ordered :
      Engine
      → Draws
      → PlaceOrderRequest
      → Symbol
      → Amount
      → Amount
      → String × Amount
      → Stateful Desk (Order × List Trade)
  ordered e draws req market qty price c = do
    let undo = on_account (send_unfreeze e.ref_type req.user_id c.0 (d.text c.1) draws.order_id)
    _ ← on_account (send_freeze e.ref_type req.user_id c.0 (d.text c.1) draws.order_id)
    _ ← or_undo (on_orders (create_order (new_order e req draws.order_id market qty price))) undo
    matched e draws req market qty price undo

  ordered_told :
      (e : Engine) (draws : Draws) (req : PlaceOrderRequest) (market : Symbol) (qty price : Amount)
      (c : String × Amount) (w w' : Desk) (o : Order) (ts : List Trade)
      → ordered e draws req market qty price c w ≡ (ok (o, ts), w')
      → (resting : Bool) × (o
          ≡ with_fill
              (add_up draws.order_id nil ts)
              (told_status resting (add_up draws.order_id nil ts) qty)
              (new_order e req draws.order_id market qty price))
        × HasRow draws.order_id o w'
  ordered_told e draws req market qty price c w w' o ts h =
      let (u1, w1, h1, k1) = bind_action _ _ w w' _ h in
      let (u2, w2, h2, k2) = bind_action _ _ w1 w' _ k1 in
      matched_told e draws req market qty price _ (new_order e req draws.order_id market qty price)
        w2 w' o ts k2 (create_order_told _ _ w1 w2 h2)

  -- What PlaceOrder reads before it freezes.
  ordered_from :
      (e : Engine) (draws : Draws) (req : PlaceOrderRequest) (w w' : Desk) (x : Order × List Trade)
      → place_order e draws req w ≡ (ok x, w')
      → (market : Symbol) × (qty : Amount) × (price : Amount) × (c : String × Amount) × (v : Desk)
        × (parse req.quantity ≡ ok qty)
        × (ordered e draws req market qty price c v ≡ (ok x, w'))
  unfolding place_order
  ordered_from e draws req w w' x h =
      let (market, w1, h1, k1) = bind_action _ _ w w' x h in
      let (qty, w2, h2, k2) = bind_action _ _ w1 w' x k1 in
      let (price, w3, h3, k3) = bind_action _ _ w2 w' x k2 in
      let (c, w4, h4, k4) = bind_action _ _ w3 w' x k3 in
      (market, qty, price, c, w4, ap (λ x. x.0) h2, k4)

  row-IsTold :
      (e : Engine) (draws : Draws) (req : PlaceOrderRequest) (market : Symbol)
      (qty price f : Amount) (st : OrderStatus) (o : Order) (ts : List Trade) (resting : Bool)
      → parse req.quantity ≡ ok qty
      → f ≡ add_up draws.order_id nil ts
      → st ≡ told_status resting f qty
      → o ≡ with_fill f st (new_order e req draws.order_id market qty price)
      → IsTold draws req o ts
  row-IsTold e draws req market qty price f st o ts resting read sum status same =
      subst (λ o. IsTold draws req o ts) (sym same) (refl, refl, read, sum, (resting, status))

  -- Where PlaceOrder succeeds, it answers with the row of its order as the table has it: the user and
  -- the quantity of the request, as filled what the trades that it answers with add up to, and the
  -- status that goes with that: FILLED if nothing is left, else PARTIALLY_FILLED if something is
  -- filled, else NEW or CANCELLED.
  pub place_order-IsTold :
      (e : Engine) (draws : Draws) (req : PlaceOrderRequest) (w w' : Desk) (o : Order)
      (ts : List Trade)
      → place_order e draws req w ≡ (ok (o, ts), w')
      → IsTold draws req o ts × (get_order draws.order_id w'.orders.orders ≡ some o)
  place_order-IsTold e draws req w w' o ts h =
      let (market, qty, price, c, v, read, k) = ordered_from e draws req w w' (o, ts) h in
      let (resting, same, has) = ordered_told e draws req market qty price c v w' o ts k in
      (row-IsTold e draws req market qty price _ _ o ts resting read refl refl same, has)
