-- ===== src/Perps/Serving.antt =====
-- What the perpetual services keep, whatever they are asked.
use crypto_exchange_lab.Prelude.{none, some, ◌≡◌, refl, sym, subst}
use crypto_exchange_lab.Stateful.{Keeps}
use crypto_exchange_lab.Account.Store.{Tables}
use crypto_exchange_lab.Decimal.{Decimal}
use crypto_exchange_lab.Errors.{Result, ok, err}
use crypto_exchange_lab.Account.Soundness.{IsSound}
use crypto_exchange_lab.Perps.Posted.{IsClientKept, IsSound-IsClientKept}
use crypto_exchange_lab.Perps.Engine.{World, Action}
use crypto_exchange_lab.Perps.Keeping.{
  IsFine, open_position-Keeps, close_position-Keeps, liquidate-Keeps,
}
use crypto_exchange_lab.Perps.Api.{
  Draws, Answer, Request, listing_markets, listing_marks, listing_positions, opening, closing,
  liquidating, asking_user_risk, asking_position_risk, open_request, write, handle_open,
  handle_close, handle_liquidate, serve,
}

module _ ⦃d : Decimal⦄ where
  -- Sound accounts and valid positions.
  abbrev pub IsInOrder : World → Type 0
  IsInOrder = IsFine IsSound IsSound-IsClientKept

  write-world {ℓ} :
      {A : Type ℓ} (format : A → Answer) (r : Result A × World) → (write format r).1 ≡ r.1
  write-world format (ok a, w) = refl
  write-world format (err e, w) = refl

  module _ (Fine : Tables → Type 0) (client : IsClientKept Fine) where
    abbrev Holds : World → Type 0
    Holds = IsFine Fine client

    written-Holds {ℓ} :
        {A : Type ℓ} (format : A → Answer) (m : Action A) (w : World)
        → Keeps Holds m
        → Holds w
        → Holds (write format (m w)).1
    written-Holds format m w k s = subst Holds (sym (write-world format (m w))) (k.keeps w s)

    -- What the calls of the engine keep, any request to the perpetual services keeps, errors included.
    pub serve-Holds :
        (draws : Draws) (r : Request) (w : World) → Holds w → Holds (serve draws r w).1
    unfolding serve handle_open handle_close handle_liquidate
    serve-Holds draws listing_markets w s = s
    serve-Holds draws listing_marks w s = s
    serve-Holds draws (listing_positions u) w s = s
    serve-Holds draws (opening none) w s = s
    serve-Holds draws (opening (some body)) w s =
        written-Holds _ _ w
          (open_position-Keeps Fine client (open_request body) draws.pos_id draws.freeze_ref) s
    serve-Holds draws (closing none) w s = s
    serve-Holds draws (closing (some body)) w s =
        written-Holds _ _ w (close_position-Keeps Fine client body draws.trade_id) s
    serve-Holds draws (liquidating none) w s = s
    serve-Holds draws (liquidating (some body)) w s =
        written-Holds _ _ w (liquidate-Keeps Fine client body.user_id body.symbol draws.trade_id) s
    serve-Holds draws (asking_user_risk u) w s = s
    serve-Holds draws (asking_position_risk u m) w s = s

  -- Any request to the perpetual services, errors included, keeps the accounts sound (no balance below
  -- zero) and the positions valid (a side, positive size and margin, leverage 1 to 100, one per user
  -- and symbol).
  pub serve-IsInOrder :
      (draws : Draws) (r : Request) (w : World) → IsInOrder w → IsInOrder (serve draws r w).1
  serve-IsInOrder = serve-Holds IsSound IsSound-IsClientKept
