-- ===== src/Orders/Kept.antt =====
-- The order flow and a property of the three services: what each call keeps, `PlaceOrder` keeps.
use crypto_exchange_lab.Prelude.{
  ◌≡◌, refl, Bool, true, false, String, List, [], ◌∷◌, inl, inr, Bool-cases,
}
use crypto_exchange_lab.Decimal.{Decimal, Amount, nil, ◌⊖◌, is_zero, less_or_equal}
use crypto_exchange_lab.Exchange.{Side, OrderStatus}
use crypto_exchange_lab.Errors.{Result, ok, err, bind_ok}
use crypto_exchange_lab.Stateful.{
  Stateful, Keeps, bind-Keeps, ask-Keeps, anyway-Keeps, or_undo-Keeps,
}
use crypto_exchange_lab.Account.Store.{Tables}
use crypto_exchange_lab.Account.Soundness.{IsSound}
use crypto_exchange_lab.Account.Handler.{parse}
use crypto_exchange_lab.Hub.Books.{venue_text}
use crypto_exchange_lab.Hub.Handler.{Times, SubmitReq}
use crypto_exchange_lab.Perps.Posted.{
  KeepsTables, post-IsSound, send_freeze-KeepsTables, send_unfreeze-KeepsTables,
  send_settle_trade-KeepsTables,
}
use crypto_exchange_lab.Perps.Client.{send_freeze, send_unfreeze}
use crypto_exchange_lab.Orders.Store.{Order, Trade, Symbol, create_order, update_order_fill}
use crypto_exchange_lab.Orders.Settle.{MatchTrade, settle_match}
use crypto_exchange_lab.Orders.Flow.{
  Engine, Draws, PlaceOrderRequest, Desk, on_account, submit, on_orders, note_makers, record_trade,
  settle_all, unfreeze_order, release_collateral, release_remaining, release_unless, place_order,
}

module _ ⦃d : Decimal⦄ where
  settle_match-KeepsTables :
      (i : String) (sym : Symbol) (mt : MatchTrade) → KeepsTables IsSound (settle_match i sym mt)
  unfolding settle_match
  settle_match-KeepsTables i sym mt t t' h =
      let (p, e, h1) = bind_ok (parse mt.price) _ h in
      let (q, f, h2) = bind_ok (parse mt.quantity) _ h1 in
      send_settle_trade-KeepsTables IsSound post-IsSound _ t t' h2

  module _ (Fine : Desk → Type 0) where
    -- The calls of an engine on the state keep the property.
    pub record IsKept (e : Engine) (id : String) : Type 0 where
      pub posted : (f : Tables → Result Tables) → KeepsTables IsSound f → Keeps Fine (on_account f)
      pub sent :
          (times : Times) (req : SubmitReq)
          → req.venue ≡ venue_text e.venue
          → Keeps Fine (submit times req)
      pub traded : (t : Trade) → Keeps Fine (record_trade t)
      pub noted : (q : Amount) (mt : MatchTrade) → Keeps Fine (note_makers id q mt)

    module _ (e : Engine) (id : String) (kept : IsKept e id) where
      freeze-Keeps : (u a x i : String) → Keeps Fine (on_account (send_freeze e.ref_type u a x i))
      freeze-Keeps u a x i =
          kept.posted _ (send_freeze-KeepsTables IsSound post-IsSound e.ref_type u a x i)

      unfreeze-Keeps :
          (u a x i : String) → Keeps Fine (on_account (send_unfreeze e.ref_type u a x i))
      unfreeze-Keeps u a x i =
          kept.posted _ (send_unfreeze-KeepsTables IsSound post-IsSound e.ref_type u a x i)

      pub settle_all-Keeps :
          (draws : Draws) (sym : Symbol) (mts : List MatchTrade) (filled : Amount)
          (recorded : List Trade)
          → draws.order_id ≡ id
          → Keeps Fine (settle_all e draws sym mts filled recorded)
      unfolding settle_all
      settle_all-Keeps draws sym [] filled recorded own = ask-Keeps Fine _
      settle_all-Keeps draws sym (mt ∷ rest) filled recorded own =
          bind-Keeps Fine _ _ (kept.posted _ (settle_match-KeepsTables _ sym mt)) λ u1.
            bind-Keeps Fine _ _ (kept.traded _) λ u2.
              bind-Keeps Fine _ _ (own_noted draws.order_id _ mt own)
                λ u3. settle_all-Keeps draws sym rest _ _ own
        where
          own_noted :
              (i : String) (q : Amount) (mt : MatchTrade) → i ≡ id → Keeps Fine (note_makers i q mt)
          own_noted i q mt own = rw own (kept.noted q mt)

      unfreeze_order-Keeps :
          (i asset : String) (amt : Amount) → Keeps Fine (unfreeze_order e i asset amt)
      unfolding unfreeze_order
      unfreeze_order-Keeps i asset amt =
          bind-Keeps Fine _ _ (ask-Keeps Fine _) λ o. unfreeze-Keeps _ _ _ _

      release_collateral-Keeps :
          (i : String) (r : Result (String × Amount)) → Keeps Fine (release_collateral e i r)
      release_collateral-Keeps i (err f) = ask-Keeps Fine _
      release_collateral-Keeps i (ok (asset, amt)) = elim (Bool-cases (is_zero amt)) [
        | inl z ↦ rw z (ask-Keeps Fine _)
        | inr z ↦ rw z (unfreeze_order-Keeps i asset amt)
      ]

      release_remaining-Keeps :
          (side : Side) (sym : Symbol) (i : String) (qty price filled : Amount)
          → Keeps Fine (release_remaining e side sym i qty price filled)
      unfolding release_remaining
      release_remaining-Keeps side sym i qty price filled =
          elim (Bool-cases (less_or_equal (qty ⊖ filled) nil)) [
            | inl z ↦ rw z (ask-Keeps Fine _)
            | inr z ↦ rw z (release_collateral-Keeps i _)
          ]

      release_unless-Keeps :
          (b : Bool) (m : Stateful Desk Unit) → Keeps Fine m → Keeps Fine (release_unless b m)
      release_unless-Keeps true m h = ask-Keeps Fine _
      release_unless-Keeps false m h = h

      -- What `PlaceOrder` does once nothing of the order rests.
      pub release-Keeps :
          (resting : Bool) (side : Side) (sym : Symbol) (i : String) (qty price filled : Amount)
          → Keeps Fine (release_unless resting (release_remaining e side sym i qty price filled))
      release-Keeps resting side sym i qty price filled =
          release_unless-Keeps resting _ (release_remaining-Keeps side sym i qty price filled)

      pub place_order-Keeps :
          (draws : Draws) (req : PlaceOrderRequest)
          → draws.order_id ≡ id
          → ((o : Order) → Keeps Fine (on_orders (create_order o)))
          → ((x : Amount) (s : OrderStatus) → Keeps Fine (on_orders (update_order_fill id x s)))
          → Keeps Fine (place_order e draws req)
      unfolding place_order
      place_order-Keeps draws req own created filled = bind-Keeps Fine _ _ (ask-Keeps Fine _) λ sym.
          bind-Keeps Fine _ _ (ask-Keeps Fine _) λ qty.
            bind-Keeps Fine _ _ (ask-Keeps Fine _) λ price.
              bind-Keeps Fine _ _ (ask-Keeps Fine _) λ c.
                bind-Keeps Fine _ _ (freeze-Keeps _ _ _ _) λ u1.
                  bind-Keeps Fine _ _ (or_undo-Keeps Fine _ _ (created _) (unfreeze-Keeps _ _ _ _))
                    λ u2.
                      bind-Keeps Fine _ _
                        (or_undo-Keeps Fine _ _ (kept.sent _ _ refl) (unfreeze-Keeps _ _ _ _))
                        λ res.
                          bind-Keeps Fine _ _ (settle_all-Keeps draws sym res.trades _ _ own)
                            λ done.
                              bind-Keeps Fine _ _
                                (anyway-Keeps Fine _ (own_filled draws.order_id _ _ own))
                                λ u3.
                                  bind-Keeps Fine _ _
                                    (release-Keeps res.resting req.side sym _ qty price _)
                                    λ u4.
                                      bind-Keeps Fine _ _ (ask-Keeps Fine _) λ o. ask-Keeps Fine _
        where
          own_filled :
              (i : String) (x : Amount) (s : OrderStatus)
              → i ≡ id
              → Keeps Fine (on_orders (update_order_fill i x s))
          own_filled i x s own = rw own (filled x s)
