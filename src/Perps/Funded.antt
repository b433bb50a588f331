-- ===== src/Perps/Funded.antt =====
-- What a round of the funding settler keeps.
use crypto_exchange_lab.Prelude.{
  ◌≡◌, refl, sym, subst, ℕ, String, List, [], ◌∷◌, length, Bool-cases, inl, inr,
}
use crypto_exchange_lab.Decimal.{Decimal, Amount, is_zero}
use crypto_exchange_lab.Stateful.{Keeps, bind-Keeps, ask-Keeps}
use crypto_exchange_lab.Account.Store.{Tables}
use crypto_exchange_lab.Account.Soundness.{IsSound}
use crypto_exchange_lab.Perps.Math.{funding_payment}
use crypto_exchange_lab.Perps.Store.{
  Market, Position, PerpTables, list_markets, list_all_positions, insert_funding_rate,
}
use crypto_exchange_lab.Perps.Posted.{IsClientKept, IsSound-IsClientKept}
use crypto_exchange_lab.Perps.Engine.{World}
use crypto_exchange_lab.Perps.Closing.{pay_funding, apply_funding}
use crypto_exchange_lab.Perps.Positions.{AreValid}
use crypto_exchange_lab.Perps.Keeping.{IsFine, on_account-Keeps, on_perp-Keeps}
use crypto_exchange_lab.Perps.Rounds.{insert_rates, settle_positions, run_settler}
use crypto_exchange_lab.Perps.Guarded.{counted-world}
use crypto_exchange_lab.Perps.Serving.{IsInOrder}

module _ ⦃d : Decimal⦄ where
  insert_rates-positions :
      (rate : Amount) (ms : List Market) (t : PerpTables)
      → (insert_rates rate ms t).positions ≡ t.positions
  unfolding insert_rates
  insert_rates-positions rate [] t = refl
  insert_rates-positions rate (m ∷ ms) t =
      insert_rates-positions rate ms (insert_funding_rate m.symbol rate t)

  module _ (Fine : Tables → Type 0) (client : IsClientKept Fine) where
    abbrev Holds : World → Type 0
    Holds = IsFine Fine client

    pay_funding-Keeps :
        (pos : Position) (rate : Amount) (id : String) (mark : Amount)
        → Keeps Holds (pay_funding pos rate id mark)
    unfolding pay_funding
    pay_funding-Keeps pos rate id mark =
        elim (Bool-cases (is_zero (funding_payment pos.side pos.size mark rate))) [
          | inl e ↦ rw (e, pay_funding) (ask-Keeps Holds _)
          | inr e ↦
              rw (e, pay_funding)
                (bind-Keeps Holds _ _ (ask-Keeps Holds _) λ house.
                  bind-Keeps Holds _ _ (on_account-Keeps Fine client _ (client.balanced _ _ _ _))
                    λ u. on_perp-Keeps Fine client _ λ t. refl)
        ]

    apply_funding-Keeps :
        (pos : Position) (rate : Amount) (id : String) → Keeps Holds (apply_funding pos rate id)
    unfolding apply_funding
    apply_funding-Keeps pos rate id =
        bind-Keeps Holds _ _ (ask-Keeps Holds _) λ mark. pay_funding-Keeps pos rate id mark

    settle_positions-Holds :
        (rate : Amount) (ids : ℕ → String) (ps : List Position) (x : ℕ × World)
        → Holds x.1
        → Holds (settle_positions rate ids ps x).1
    unfolding settle_positions
    settle_positions-Holds rate ids [] (n, w) s = s
    settle_positions-Holds rate ids (p ∷ ps) (n, w) s = settle_positions-Holds rate ids ps _ (
        subst Holds (sym (counted-world n (apply_funding p rate (ids (length ps)) w)))
          ((apply_funding-Keeps p rate (ids (length ps))).keeps w s))

    -- What the calls of the engine keep, a round of the settler keeps, whichever payments fail.
    pub run_settler-Holds :
        (rate : Amount) (ids : ℕ → String) (w : World) → Holds w → Holds (run_settler rate ids w).1
    unfolding run_settler
    run_settler-Holds rate ids w s =
        settle_positions-Holds rate ids (list_all_positions w.perp.positions) _ (record {
          accounts = s.accounts;
          positions =
              subst AreValid (sym (insert_rates-positions rate (list_markets w.perp) w.perp))
                s.positions;
        })

  -- A round of the funding settler keeps the accounts sound and the positions valid, whichever of its
  -- payments fail: nobody is charged below zero.
  pub run_settler-IsInOrder :
      (rate : Amount) (ids : ℕ → String) (w : World)
      → IsInOrder w
      → IsInOrder (run_settler rate ids w).1
  run_settler-IsInOrder = run_settler-Holds IsSound IsSound-IsClientKept
