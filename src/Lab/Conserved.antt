-- ===== src/Lab/Conserved.antt =====
-- What all users hold, whatever happens to the services, as long as no trade is settled.
use crypto_exchange_lab.Prelude.{
  ℕ, ◌≡◌, refl, ap, ◌∙◌, Bool, true, false, String, List, [], ◌∷◌, All,
}
use crypto_exchange_lab.Decimal.{Decimal, Amount}
use crypto_exchange_lab.Account.Rows.{held}
use crypto_exchange_lab.Account.Conserved.{is_settlement, serve-held}
use crypto_exchange_lab.Orders.Flow.{Draws, Desk}
use crypto_exchange_lab.Orders.Withdrawal.{cancel_open}
use crypto_exchange_lab.Orders.Returned.{cancel_open-held}
use crypto_exchange_lab.Orders.Serving.{write-desk}
use crypto_exchange_lab.Orders.Api.{
  Handler, Request as OrderRequest, placing, cancelling, listing_orders, listing_trades,
  listing_symbols, asking_venue, handle_cancel, serve as serve_orders,
}
use crypto_exchange_lab.Perps.Rounds.{run_scanner}
use crypto_exchange_lab.Perps.Conserved.{
  IsConserved, IsConserved-IsClientKept, serve_conserves, run_settler-held,
}
use crypto_exchange_lab.Lab.Scanned.{run_scanner-Holds}
use crypto_exchange_lab.Lab.Services.{
  Lab, Event, to_account, to_matching, to_order_service, to_orderbook_dex, to_perps, scanning,
  asking_rate, settling, marking, order_service, orderbook_dex, desk_of, world_of, handle_settle,
  step, run,
}
use crypto_exchange_lab.Lab.Running.{IsAllRight, step-IsAllRight}

module _ ⦃d : Decimal⦄ where
  abbrev is_placing : OrderRequest → Bool
  is_placing (placing body) = true
  is_placing _ = false

  -- The event can settle a trade: an order is placed, or account-service is asked for a settlement.
  abbrev pub can_trade : Event → Bool
  can_trade (to_account r) = is_settlement r
  can_trade (to_order_service draws r) = is_placing r
  can_trade (to_orderbook_dex draws r) = is_placing r
  can_trade _ = false

  orders_held :
      (h : Handler) (draws : Draws) (r : OrderRequest) (w : Desk) (b : String)
      → is_placing r ≡ false
      → held b (serve_orders h draws r w).1.account.balances ≡ held b w.account.balances
  unfolding serve_orders handle_cancel
  orders_held h draws (placing body) w b e = absurd cc
  orders_held h draws (cancelling id) w b e =
      ap (λ (v : Desk). held b v.account.balances) (write-desk _ (cancel_open h.engine id w))
      ∙ cancel_open-held h.engine id w b
  orders_held h draws (listing_orders u n) w b e = refl
  orders_held h draws (listing_trades m n) w b e = refl
  orders_held h draws listing_symbols w b e = refl
  orders_held h draws asking_venue w b e = refl

  run_scanner-held :
      (ids : ℕ → String) (l : Lab)
      → IsAllRight l
      → (b : String)
      → held b (run_scanner ids (world_of l)).1.account.balances ≡ held b l.account.balances
  run_scanner-held ids l s b =
      (run_scanner-Holds (IsConserved l.account) (IsConserved-IsClientKept l.account) ids
          (world_of l)
          (record {
            accounts = record { sound = s.accounts; holdings = λ a. refl };
            positions = s.positions;
          })).accounts.holdings
        b

  step-held :
      (rate : Amount) (e : Event) (l : Lab)
      → IsAllRight l
      → can_trade e ≡ false
      → (b : String) → held b (step rate e l).account.balances ≡ held b l.account.balances
  unfolding step handle_settle
  step-held rate (to_account r) l s e b = serve-held r l.account e b
  step-held rate (to_matching times r) l s e b = refl
  step-held rate (to_order_service draws r) l s e b =
      orders_held order_service draws r (desk_of l) b e
  step-held rate (to_orderbook_dex draws r) l s e b =
      orders_held orderbook_dex draws r (desk_of l) b e
  step-held rate (to_perps draws r) l s e b =
      serve_conserves draws r (world_of l) s.accounts s.positions b
  step-held rate (scanning ids) l s e b = run_scanner-held ids l s b
  step-held rate (asking_rate symbol) l s e b = refl
  step-held rate (settling ids) l s e b =
      run_settler-held rate ids (world_of l) s.accounts s.positions b
  step-held rate marking l s e b = refl

  -- On services in order, with sound accounts, valid books and positions, and order rows that meet
  -- their constraints, take any requests and rounds, failures among them, in which no order is placed
  -- and account-service is not asked to settle a trade. What all users together hold of an asset,
  -- available and frozen, is then as before: cancelling orders, opening and closing positions,
  -- liquidations and funding make nothing and lose nothing.
  pub run-held :
      (rate : Amount) (es : List Event) (l : Lab)
      → IsAllRight l
      → All (λ e. can_trade e ≡ false) es
      → (b : String) → held b (run rate es l).account.balances ≡ held b l.account.balances
  unfolding run
  run-held rate [] l s h b = refl
  run-held rate (e ∷ es) l s h b =
      run-held rate es (step rate e l) (step-IsAllRight rate e l s) h.1 b
      ∙ step-held rate e l s h.0 b
