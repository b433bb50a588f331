-- ===== src/Orders/Returned.antt =====
-- What users hold, around `CancelOrder`.
use crypto_exchange_lab.Prelude.{◌≡◌, refl, ◌∙◌, String}
use crypto_exchange_lab.Decimal.{Decimal}
use crypto_exchange_lab.Stateful.{Keeps, within-Keeps}
use crypto_exchange_lab.Account.Rows.{held}
use crypto_exchange_lab.Account.Collateral.{unfreeze-held}
use crypto_exchange_lab.Perps.Client.{send_unfreeze}
use crypto_exchange_lab.Perps.Requests.{send_unfreeze_ok}
use crypto_exchange_lab.Orders.Flow.{Engine, Desk, on_account, withdraw}
use crypto_exchange_lab.Orders.Withdrawal.{cancel_open}
use crypto_exchange_lab.Orders.Released.{cancel_open-Keeps}

module _ ⦃d : Decimal⦄ where
  module _ (e : Engine) (before : Desk) (b : String) where
    -- All users together hold what they held before.
    abbrev IsHeld : Desk → Type 0
    IsHeld w = held b w.account.balances ≡ held b before.account.balances

    send_unfreeze-IsHeld :
        (u a x i : String) → Keeps IsHeld (on_account (send_unfreeze e.ref_type u a x i))
    send_unfreeze-IsHeld u a x i =
        within-Keeps IsHeld _ _ (send_unfreeze e.ref_type u a x i) λ w t' h k.
          let (amt, done) = send_unfreeze_ok e.ref_type u a x i w.account t' h in
          unfreeze-held u a amt e.ref_type i w.account t' done b ∙ k

    withdraw-IsHeld : (i symbol : String) → Keeps IsHeld (withdraw e.venue i symbol)
    unfolding withdraw
    withdraw-IsHeld i symbol = record { keeps = λ w k. k }

  -- Cancelling an order leaves what all users hold of an asset as it was, wherever it fails.
  pub cancel_open-held :
      (e : Engine) (i : String) (w : Desk) (b : String)
      → held b (cancel_open e i w).1.account.balances ≡ held b w.account.balances
  cancel_open-held e i w b =
      (cancel_open-Keeps (IsHeld e w b) e i (record {
        unfrozen = send_unfreeze-IsHeld e w b;
        withdrawn = withdraw-IsHeld e w b i;
        cancelled = λ v o os h k. k;
      })).keeps
        w refl
