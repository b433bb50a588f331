-- ===== src/Perps/Guarded.antt =====
-- A round of the scanner where no position is at risk.
use crypto_exchange_lab.Prelude.{◌≡◌, ℕ, refl, false, String, List, [], ◌∷◌, All}
use crypto_exchange_lab.Decimal.{Decimal}
use crypto_exchange_lab.Errors.{Result, ok, err}
use crypto_exchange_lab.Sort.{sort_slice-All}
use crypto_exchange_lab.Perps.Store.{Position, position_before, list_all_positions}
use crypto_exchange_lab.Perps.Engine.{World}
use crypto_exchange_lab.Perps.Rounds.{is_at_risk, counted, scan_positions, run_scanner}

module _ ⦃d : Decimal⦄ where
  pub counted-world {ℓ} : {A : Type ℓ} (n : ℕ) (x : Result A × World) → (counted n x).1 ≡ x.1
  counted-world n (ok a, w) = refl
  counted-world n (err e, w) = refl

  scan_positions_safe :
      (ids : ℕ → String) (ps : List Position) (n : ℕ) (w : World)
      → All (λ p. is_at_risk p w ≡ false) ps
      → scan_positions ids ps (n, w) ≡ (n, w)
  unfolding scan_positions
  scan_positions_safe ids [] n w h = refl
  scan_positions_safe ids (p ∷ ps) n w h = rw h.0 (scan_positions_safe ids ps n w h.1)

  -- Where no position is at risk, a round of the scanner liquidates none and changes nothing.
  pub run_scanner_safe :
      (ids : ℕ → String) (w : World)
      → All (λ p. is_at_risk p w ≡ false) w.perp.positions
      → run_scanner ids w ≡ (0, w)
  unfolding run_scanner list_all_positions
  run_scanner_safe ids w h =
      scan_positions_safe ids (list_all_positions w.perp.positions) 0 w
        (sort_slice-All position_before (λ p. is_at_risk p w ≡ false) w.perp.positions h)
