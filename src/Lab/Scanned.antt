-- ===== src/Lab/Scanned.antt =====
-- What a round of the liquidation scanner keeps.
use crypto_exchange_lab.Prelude.{sym, subst, ℕ, String, List, [], ◌∷◌, length, Bool-cases, inl, inr}
use crypto_exchange_lab.Decimal.{Decimal}
use crypto_exchange_lab.Account.Store.{Tables}
use crypto_exchange_lab.Account.Soundness.{IsSound}
use crypto_exchange_lab.Perps.Store.{Position, list_all_positions}
use crypto_exchange_lab.Perps.Posted.{IsClientKept, IsSound-IsClientKept}
use crypto_exchange_lab.Perps.Engine.{World}
use crypto_exchange_lab.Perps.Closing.{liquidate}
use crypto_exchange_lab.Perps.Keeping.{IsFine, liquidate-Keeps}
use crypto_exchange_lab.Perps.Rounds.{is_at_risk, counted, scan_positions, run_scanner}
use crypto_exchange_lab.Perps.Guarded.{counted-world}
use crypto_exchange_lab.Perps.Serving.{IsInOrder}

module _ ⦃d : Decimal⦄ where
  module _ (Fine : Tables → Type 0) (client : IsClientKept Fine) where
    abbrev Holds : World → Type 0
    Holds = IsFine Fine client

    scan_positions-Holds :
        (ids : ℕ → String) (ps : List Position) (x : ℕ × World)
        → Holds x.1
        → Holds (scan_positions ids ps x).1
    unfolding scan_positions
    scan_positions-Holds ids [] (n, w) s = s
    scan_positions-Holds ids (p ∷ ps) (n, w) s = elim (Bool-cases (is_at_risk p w)) [
      | inl e ↦
          let id = ids (length ps) in
          rw e (
            scan_positions-Holds ids ps (counted n (liquidate p.user_id p.symbol id w)) (
              subst Holds (sym (counted-world n (liquidate p.user_id p.symbol id w)))
                ((liquidate-Keeps Fine client p.user_id p.symbol id).keeps w s)))
      | inr e ↦ rw e (scan_positions-Holds ids ps (n, w) s)
    ]

    -- What the calls of the engine keep, a round of the scanner keeps, whichever liquidations fail.
    pub run_scanner-Holds : (ids : ℕ → String) (w : World) → Holds w → Holds (run_scanner ids w).1
    unfolding run_scanner
    run_scanner-Holds ids w s =
        scan_positions-Holds ids (list_all_positions w.perp.positions) (0, w) s

  -- A round of the scanner keeps the accounts sound and the positions valid, whichever of its
  -- liquidations fail.
  pub run_scanner-IsInOrder :
      (ids : ℕ → String) (w : World) → IsInOrder w → IsInOrder (run_scanner ids w).1
  run_scanner-IsInOrder = run_scanner-Holds IsSound IsSound-IsClientKept
