-- ===== src/Perps/Conserved.antt =====
-- What all users hold, around the perpetual services: margin is frozen and given back, and profits
-- and funding are paid by one user to another.
use crypto_exchange_lab.Prelude.{
  ℕ, ◌≡◌, refl, sym, ap, ◌∙◌, All-map, String, List, [], ◌==◌, arith, inl, inr, Bool-cases,
}
use crypto_exchange_lab.Decimal.{Decimal, Amount}
use crypto_exchange_lab.Decimal.Laws.{plus-zero}
use crypto_exchange_lab.Errors.{ok, bind_ok}
use crypto_exchange_lab.Account.Store.{Tables, LedgerLeg, has_reference}
use crypto_exchange_lab.Account.Operations.{freeze, settle_trade}
use crypto_exchange_lab.Account.Rows.{held}
use crypto_exchange_lab.Account.Settlement.{release_sum}
use crypto_exchange_lab.Account.Settled.{settle_trade-held}
use crypto_exchange_lab.Account.Collateral.{freeze-held, unfreeze-held}
use crypto_exchange_lab.Account.Soundness.{IsSound}
use crypto_exchange_lab.Account.Handler.{
  LegReq, parse, parse_legs, parse_releases, freeze_parsed, settle_parsed, handle_freeze,
  handle_settle_trade, serve as serve_account,
}
use crypto_exchange_lab.Perps.Client.{
  answer, post, send_freeze, send_settle_trade, settle_balanced, balanced_legs,
}
use crypto_exchange_lab.Perps.Requests.{answer-finish, send_unfreeze_ok}
use crypto_exchange_lab.Perps.Posted.{IsClientKept, IsSound-IsClientKept}
use crypto_exchange_lab.Perps.Engine.{World}
use crypto_exchange_lab.Perps.Positions.{AreValid}
use crypto_exchange_lab.Perps.Api.{Draws, Request, serve}
use crypto_exchange_lab.Perps.Serving.{serve-Holds}
use crypto_exchange_lab.Perps.Rounds.{run_settler}
use crypto_exchange_lab.Perps.Funded.{run_settler-Holds}

module _ ⦃d : Decimal⦄ where
  send_freeze_ok :
      (k u a x i : String) (t t' : Tables)
      → send_freeze k u a x i t ≡ ok t'
      → (y : Amount) × (freeze u a y k i t ≡ ok t')
  unfolding send_freeze post serve_account handle_freeze freeze_parsed
  send_freeze_ok k u a x i t t' h =
      let (y, p, q) =
        bind_ok (parse x) (λ z. freeze u a z k i t) (answer-finish "frozen" t t' _ h) in
      (y, q)

  -- A settlement without releases leaves what is held.
  settle_trade_same :
      (id : String) (legs : List LedgerLeg) (t t' : Tables)
      → IsSound t
      → settle_trade id legs [] t ≡ ok t'
      → (b : String) → held b t'.balances ≡ held b t.balances
  unfolding settle_trade release_sum
  settle_trade_same id legs t t' s h b =
      elim (Bool-cases (has_reference "trade" id t.transactions)) [
        | inl e ↦ ap (λ (z : Tables). held b z.balances) {x = t'} {y = t} (ground (arith, e, h))
        | inr e ↦
            let (zero, same) =
              settle_trade-held id legs [] t t' (All-map (λ r g. g.1) t.balances s.good) s.recorded
                e h b in
            sym (plus-zero (held b t'.balances)) ∙ same
      ]

  settle_parsed_same :
      (id : String) (legs : List LegReq) (t t' : Tables)
      → IsSound t
      → settle_parsed (record { trade_id = id; legs = legs; freeze_release = [] }) t ≡ ok t'
      → (b : String) → held b t'.balances ≡ held b t.balances
  unfolding settle_parsed parse_releases
  settle_parsed_same id legs t t' s h b =
      let (ls, p, q) = bind_ok (parse_legs legs) _ h in settle_trade_same id ls t t' s q b

  settle_balanced_same :
      (i u house x : String) (t t' : Tables)
      → IsSound t
      → settle_balanced i u house x t ≡ ok t'
      → (b : String) → held b t'.balances ≡ held b t.balances
  unfolding settle_balanced send_settle_trade post serve_account handle_settle_trade answer
  settle_balanced_same i u house x t t' s h = elim (Bool-cases (i == "")) [
    | inl e ↦ absurd (ground (arith, e, h))
    | inr e ↦
        settle_parsed_same i (balanced_legs u house x) t t' s
          (answer-finish "settled" t t' _ (rw e at h))
  ]

  module _ (before : Tables) where
    -- Sound tables on which all users hold together what they held before.
    pub record IsConserved (t : Tables) : Type 0 where
      pub sound : IsSound t
      pub holdings : (b : String) → held b t.balances ≡ held b before.balances

    pub IsConserved-IsClientKept : IsClientKept IsConserved
    IsConserved-IsClientKept = record {
      frozen = λ k u a x i t t' h c.
          let (y, f) = send_freeze_ok k u a x i t t' h in
          record {
            sound = IsSound-IsClientKept.frozen k u a x i t t' h c.sound;
            holdings = λ b. freeze-held u a y k i t t' f b ∙ c.holdings b;
          };
      unfrozen = λ k u a x i t t' h c.
          let (y, f) = send_unfreeze_ok k u a x i t t' h in
          record {
            sound = IsSound-IsClientKept.unfrozen k u a x i t t' h c.sound;
            holdings = λ b. unfreeze-held u a y k i t t' f b ∙ c.holdings b;
          };
      balanced = λ i u house x t t' h c. record {
        sound = IsSound-IsClientKept.balanced i u house x t t' h c.sound;
        holdings = λ b. settle_balanced_same i u house x t t' c.sound h b ∙ c.holdings b;
      };
    }

  -- Whatever the perpetual services are asked, and wherever it fails, what all users together hold of
  -- an asset, available and frozen, stays as it was, on sound accounts and valid positions: margin and
  -- profits only move.
  pub serve_conserves :
      (draws : Draws) (r : Request) (w : World)
      → IsSound w.account
      → AreValid w.perp.positions
      → (b : String) → held b (serve draws r w).1.account.balances ≡ held b w.account.balances
  serve_conserves draws r w s v b =
      (serve-Holds (IsConserved w.account) (IsConserved-IsClientKept w.account) draws r w (record {
        accounts = record { sound = s; holdings = λ a. refl };
        positions = v;
      })).accounts.holdings
        b

  -- A round of the funding settler, whichever of its payments fail, leaves what all users together
  -- hold of an asset as it was, on sound accounts and valid positions.
  pub run_settler-held :
      (rate : Amount) (ids : ℕ → String) (w : World)
      → IsSound w.account
      → AreValid w.perp.positions
      → (b : String)
      → held b (run_settler rate ids w).1.account.balances ≡ held b w.account.balances
  run_settler-held rate ids w s v b =
      (run_settler-Holds (IsConserved w.account) (IsConserved-IsClientKept w.account) rate ids w
          (record {
            accounts = record { sound = s; holdings = λ a. refl };
            positions = v;
          })).accounts.holdings
        b
