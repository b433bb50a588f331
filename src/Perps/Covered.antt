-- ===== src/Perps/Covered.antt =====
-- The positions that the liquidation scanner leaves alone, by what their users have and owe.
use crypto_exchange_lab.Prelude.{
  ◌≡◌, refl, ℕ, false, true, String, some, arith, inl, inr, Bool-cases, Option-cases, All, All-map,
}
use crypto_exchange_lab.Decimal.{
  Decimal, Amount, nil, ◌⊕◌, ◌⊖◌, ◌⊗◌, ◌≺◌, ◌≼◌, greater_or_equal, is_zero,
}
use crypto_exchange_lab.Decimal.Laws.{eq_of_cmp, cmp_flip_gt, cmp_flip, cmp_refl}
use crypto_exchange_lab.Exchange.{PositionSide}
use crypto_exchange_lab.Perps.Math.{
  notional, maintenance_margin, unrealized_pnl, equity, margin_ratio,
}
use crypto_exchange_lab.Perps.Store.{Market, Position, get_market, get_mark_price}
use crypto_exchange_lab.Perps.Engine.{World}
use crypto_exchange_lab.Perps.Closing.{ratio_of}
use crypto_exchange_lab.Perps.Rounds.{is_at_risk, run_scanner}
use crypto_exchange_lab.Perps.Guarded.{run_scanner_safe}

module _ ⦃d : Decimal⦄ where
  -- What a position gains from its entry to the mark price: a short gains when the price falls.
  abbrev pub gain : PositionSide → Amount → Amount → Amount → Amount
  gain PositionSide.long size entry mark = (mark ⊖ entry) ⊗ size
  gain PositionSide.short size entry mark = (entry ⊖ mark) ⊗ size
  gain (PositionSide.other s) size entry mark = (mark ⊖ entry) ⊗ size

  -- The margin and the gain of a position cover the maintenance rate of its value at the mark price.
  abbrev pub IsCoveredAt : Position → Market → Amount → Type 0
  IsCoveredAt p m mark =
      (nil ≼ (p.size ⊗ mark) ⊗ m.maint_margin_rate)
      × ((p.size ⊗ mark) ⊗ m.maint_margin_rate ≼ p.margin ⊕ gain p.side p.size p.entry_price mark)

  -- So they do wherever the market and its mark price are known.
  abbrev pub IsCovered : World → Position → Type 0
  IsCovered w p =
      (m : Market) (mark : Amount)
      → get_market p.symbol w.perp.markets ≡ some m
      → get_mark_price p.symbol w.perp.marks ≡ some mark
      → IsCoveredAt p m mark

  -- Documented behaviour of `NewFromInt` and of `Div`, which rounds to 16 digits: 1 is not above 999,
  -- and a number divided by a positive one that it is not below gives 1 at least.
  pub record IsDivision : Type 0 where
    pub one-many : d.of_nat 1 ≼ d.of_nat 999
    pub one-quotient : (a b : Amount) → nil ≺ b → b ≼ a → d.of_nat 1 ≼ d.quotient a b

  pos_of_not_zero : (m : Amount) → nil ≼ m → is_zero m ≡ false → nil ≺ m
  pos_of_not_zero m h z =
      ground (arith, h, z, eq_of_cmp nil m, cmp_flip_gt m nil, cmp_flip nil m, cmp_refl nil)

  gain_lem :
      (side : PositionSide) (size entry mark : Amount)
      → unrealized_pnl side size entry mark ≡ gain side size entry mark
  unfolding unrealized_pnl
  gain_lem PositionSide.long size entry mark = refl
  gain_lem PositionSide.short size entry mark = refl
  gain_lem (PositionSide.other s) size entry mark = refl

  module _ (division : IsDivision) where
    covered_ratio : (e m : Amount) → nil ≼ m → m ≼ e → d.of_nat 1 ≼ margin_ratio e m
    unfolding margin_ratio
    covered_ratio e m h k = elim (Bool-cases (is_zero m)) [
      | inl z ↦ rw z division.one-many
      | inr z ↦ rw z (division.one-quotient e m (pos_of_not_zero m h z) k)
    ]

    ratio_covered :
        (p : Position) (m : Market) (mark : Amount)
        → IsCoveredAt p m mark
        → d.of_nat 1 ≼ ratio_of p m mark
    unfolding ratio_of equity maintenance_margin notional
    ratio_covered p m mark (h, k) = rw (gain_lem p.side p.size p.entry_price mark) (
        covered_ratio (p.margin ⊕ gain p.side p.size p.entry_price mark)
          ((p.size ⊗ mark) ⊗ m.maint_margin_rate) h k)

    at_least : (x y : Amount) → y ≼ x → greater_or_equal x y ≡ true
    at_least x y h = ground (arith, h, cmp_flip x y)

    not_at_risk : (w : World) (p : Position) → IsCovered w p → is_at_risk p w ≡ false
    unfolding is_at_risk
    not_at_risk w p h = elim (Option-cases (get_market p.symbol w.perp.markets)) [
      | inl e ↦ rw (e, is_at_risk) refl
      | inr (m, e) ↦ elim (Option-cases (get_mark_price p.symbol w.perp.marks)) [
        | inl f ↦ rw (e, f, is_at_risk) refl
        | inr (mark, f) ↦
            rw
              (
                e,
                f,
                at_least (ratio_of p m mark) (d.of_nat 1) (ratio_covered p m mark (h m mark e f)),
                is_at_risk,
              )
              refl
      ]
    ]

    -- With a division as documented: where the margin and the gain of every position whose market and
    -- mark price are known cover the maintenance rate of its value at that price, a round of the
    -- scanner liquidates none and changes nothing.
    pub run_scanner_covered :
        (ids : ℕ → String) (w : World)
        → All (IsCovered w) w.perp.positions
        → run_scanner ids w ≡ (0, w)
    run_scanner_covered ids w h =
        run_scanner_safe ids w (All-map (not_at_risk w) w.perp.positions h)
