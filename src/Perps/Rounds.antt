-- ===== src/Perps/Rounds.antt =====
-- One round of the liquidation scanner (services/liquidation-engine/cmd/server/main.go), of the
-- funding settler (services/funding-engine/cmd/server/main.go) and of the mark price feed
-- (packages/perpservice/markfeed.go). The scanner's request to hyperliquid-engine is the call of
-- `Liquidate` that its handler makes. A uuid is drawn from `ids`, by the number of rows that remain.
use crypto_exchange_lab.Prelude.{
  ℕ, suc, Bool, true, false, String, List, [], ◌∷◌, Option, none, some, if◌then◌else◌, length,
}
use crypto_exchange_lab.Decimal.{Decimal, Amount, nil, ◌⊕◌, greater_or_equal, less_or_equal}
use crypto_exchange_lab.Errors.{Result, ok, err}
use crypto_exchange_lab.Perps.Store.{
  Market, MarkPrice, Position, PerpTables, list_markets, get_market, get_mark_price, set_mark_price,
  list_all_positions, insert_funding_rate,
}
use crypto_exchange_lab.Perps.Engine.{World}
use crypto_exchange_lab.Perps.Closing.{liquidate, apply_funding, ratio_of}

module _ ⦃d : Decimal⦄ where
  -- A position is at risk when its market and mark price are known and its margin ratio is below 1.
  unfoldable pub is_at_risk : Position → World → Bool
  is_at_risk pos w = elim (get_market pos.symbol w.perp.markets) [
    | none ↦ false
    | some mkt ↦ elim (get_mark_price pos.symbol w.perp.marks) [
      | none ↦ false
      | some mark ↦ if greater_or_equal (ratio_of pos mkt mark) (d.of_nat 1) then false else true
    ]
  ]

  -- A call that succeeded counts.
  abbrev pub counted {ℓ} : {A : Type ℓ} → ℕ → Result A × World → ℕ × World
  counted n (ok a, w) = (suc n, w)
  counted n (err e, w) = (n, w)

  unfoldable pub scan_positions : (ℕ → String) → List Position → ℕ × World → ℕ × World
  scan_positions ids [] (n, w) = (n, w)
  scan_positions ids (pos ∷ rest) (n, w) =
      if is_at_risk pos w
      then scan_positions ids rest
          (counted n (liquidate pos.user_id pos.symbol (ids (length rest)) w))
      else scan_positions ids rest (n, w)

  -- `Scanner.RunOnce`: the positions that it liquidated are counted.
  unfoldable pub run_scanner : (ℕ → String) → World → ℕ × World
  unfolding scan_positions is_at_risk
  run_scanner ids w = scan_positions ids (list_all_positions w.perp.positions) (0, w)

  unfoldable pub insert_rates : Amount → List Market → PerpTables → PerpTables
  insert_rates rate [] t = t
  insert_rates rate (m ∷ ms) t = insert_rates rate ms (insert_funding_rate m.symbol rate t)

  unfoldable pub settle_positions : Amount → (ℕ → String) → List Position → ℕ × World → ℕ × World
  settle_positions rate ids [] (n, w) = (n, w)
  settle_positions rate ids (pos ∷ rest) (n, w) =
      settle_positions rate ids rest (counted n (apply_funding pos rate (ids (length rest)) w))

  -- `Settler.RunOnce`.
  unfoldable pub run_settler : Amount → (ℕ → String) → World → ℕ × World
  unfolding insert_rates settle_positions
  run_settler rate ids w =
      settle_positions rate ids (list_all_positions w.perp.positions)
        (0, record w { perp = insert_rates rate (list_markets w.perp) w.perp })

  -- The middle of the best prices of a book, as `fetchCEXMid` reads them: none on an empty side, and
  -- zero for a text that is no number.
  abbrev pub or_zero : Option Amount → Amount
  or_zero none = nil
  or_zero (some x) = x

  unfoldable pub mid_of : Option (List String × List String) → Option Amount
  mid_of (some (bid ∷ bids, ask ∷ asks)) =
      some (d.quotient (or_zero (d.of_text bid) ⊕ or_zero (d.of_text ask)) (d.of_nat 2))
  mid_of _ = none

  -- A mark price is set to a middle that is positive, and stays otherwise.
  unfoldable pub set_mid : String → Option Amount → List MarkPrice → List MarkPrice
  set_mid symbol none marks = marks
  set_mid symbol (some mid) marks =
      if less_or_equal mid nil then marks else set_mark_price symbol mid marks

  -- `MarkFeed.tick`; `depths` is what the matching engine answers for a spot symbol.
  unfoldable pub tick_markets :
      (String → Option (List String × List String)) → List Market → List MarkPrice → List MarkPrice
  unfolding mid_of set_mid
  tick_markets depths [] marks = marks
  tick_markets depths (m ∷ ms) marks =
      tick_markets depths ms (set_mid m.symbol (mid_of (depths m.spot_symbol)) marks)

  unfoldable pub tick : (String → Option (List String × List String)) → PerpTables → PerpTables
  unfolding tick_markets
  tick depths t = record t { marks = tick_markets depths (list_markets t) t.marks }
