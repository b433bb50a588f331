-- ===== src/Orders/Refused.antt =====
-- `PlaceOrder` where the matching engine refuses the order.
use crypto_exchange_lab.Prelude.{◌≡◌, refl, sym, ap, ◌∙◌, false, String, List, some}
use Prim.Native.String.{◌++◌ as ◌<>◌}
use crypto_exchange_lab.Decimal.{Decimal, Amount}
use crypto_exchange_lab.Errors.{Failure, ok, err}
use crypto_exchange_lab.Stateful.{◌>>=◌, or_undo}
use crypto_exchange_lab.Account.Store.{Tables, has_reference}
use crypto_exchange_lab.Account.Operations.{freeze, unfreeze}
use crypto_exchange_lab.Account.Soundness.{IsSound}
use crypto_exchange_lab.Account.Undone.{freeze-unfreeze}
use crypto_exchange_lab.Account.Handler.{
  parse, finish, freeze_parsed, unfreeze_parsed, handle_freeze, handle_unfreeze, serve,
}
use crypto_exchange_lab.Perps.Client.{answer, post, send_freeze, send_unfreeze}
use crypto_exchange_lab.Perps.Requests.{answer-finish}
use crypto_exchange_lab.Orders.Store.{Symbol, Order, get_symbol, create_order}
use crypto_exchange_lab.Orders.Settle.{collateral_for_order}
use crypto_exchange_lab.Orders.Flow.{
  Engine, Draws, Desk, PlaceOrderRequest, order_price, new_order, submit_req, submit, place_order,
}

module _ ⦃d : Decimal⦄ where
  parse-text : (x : Amount) → parse (d.text x) ≡ ok x
  unfolding parse
  parse-text x = rw (d.of_text-text x, parse) refl

  send_freeze-freeze :
      (k u a i : String) (x : Amount) (t t' : Tables)
      → send_freeze k u a (d.text x) i t ≡ ok t'
      → freeze u a x k i t ≡ ok t'
  unfolding send_freeze post serve handle_freeze freeze_parsed
  send_freeze-freeze k u a i x t t' h =
      let parsed = answer-finish "frozen" t t' _ h in rw (parse-text x) at parsed

  send_unfreeze-unfreeze :
      (k u a i : String) (x : Amount) (t t' : Tables)
      → unfreeze u a x k i t ≡ ok t'
      → send_unfreeze k u a (d.text x) i t ≡ ok t'
  unfolding send_unfreeze post serve handle_unfreeze unfreeze_parsed finish answer
  send_unfreeze-unfreeze k u a i x t t' h = rw (parse-text x, h) refl

  -- What the client has frozen, it can give back.
  given_back :
      (k u a i : String) (x : Amount) (t t1 : Tables)
      → IsSound t
      → send_freeze k u a (d.text x) i t ≡ ok t1
      → has_reference k (k <> ":" <> i <> ":" <> "unfreeze") t1.transactions ≡ false
      → (t2 : Tables) × (send_unfreeze k u a (d.text x) i t1 ≡ ok t2) × (t2.balances ≡ t.balances)
  given_back k u a i x t t1 s h fresh =
      let (t2, p, b) =
        freeze-unfreeze u a x k i t t1 s (send_freeze-freeze k u a i x t t1 h) fresh in
      (t2, send_unfreeze-unfreeze k u a i x t1 t2 p, b)

  -- An order whose collateral was frozen and whose row was written, and which the matching engine then
  -- refuses: PlaceOrder returns the engine's error, and on sound tables, where the order's reference
  -- was not unfrozen before, all balances are those before the call.
  pub place_order_refused :
      (e : Engine) (draws : Draws) (req : PlaceOrderRequest) (w : Desk) (pair : Symbol)
      (qty price x : Amount) (a : String) (t1 : Tables) (os : List Order) (f : Failure) (w2 : Desk)
      → get_symbol req.symbol w.orders.symbols ≡ some pair
      → parse req.quantity ≡ ok qty
      → order_price req ≡ ok price
      → collateral_for_order req.side pair qty price ≡ ok (a, x)
      → send_freeze e.ref_type req.user_id a (d.text x) draws.order_id w.account ≡ ok t1
      → create_order (new_order e req draws.order_id pair qty price) w.orders.orders ≡ some os
      → submit draws.times
          (submit_req e req draws.order_id pair qty price)
          (record w { account = t1; orders = record w.orders { orders = os } })
        ≡ (err f, w2)
      → IsSound w.account
      → has_reference e.ref_type
          (e.ref_type <> ":" <> draws.order_id <> ":" <> "unfreeze")
          t1.transactions
        ≡ false
      → ((place_order e draws req w).0 ≡ err f)
        × ((place_order e draws req w).1.account.balances ≡ w.account.balances)
  unfolding place_order ◌>>=◌ or_undo submit
  place_order_refused e draws req w pair qty price x a t1 os f w2 hs hq hp hc hf ho hm s fresh =
      let (t2, p, b) =
        given_back e.ref_type req.user_id a draws.order_id x w.account t1 s hf fresh in
      let kept : w2.account ≡ t1 = ap (λ z. z.1.account) (sym hm) in
      let undone =
        ap (λ z. send_unfreeze e.ref_type req.user_id a (d.text x) draws.order_id z) kept ∙ p in
      rw (hs, hq, hp, hc, hf, ho, hm, undone) (refl, b)
