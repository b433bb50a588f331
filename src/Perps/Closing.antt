-- ===== src/Perps/Closing.antt =====
-- `Close`, `Liquidate`, the risk of a position and `ApplyFunding` of packages/perpservice/engine.go.
use crypto_exchange_lab.Prelude.{
  ℕ, Bool, String, List, [], ◌∷◌, Option, none, some, if◌then◌else◌, ◌==◌,
}
use crypto_exchange_lab.Decimal.{
  Decimal, Amount, nil, ◌⊖◌, ◌⊗◌, is_zero, less, less_or_equal, greater,
}
use crypto_exchange_lab.Exchange.{PositionSide}
use crypto_exchange_lab.Errors.{Code, Failure, Result, ok, err, broken}
use crypto_exchange_lab.Perps.Math.{
  notional, maintenance_margin, unrealized_pnl, equity, margin_ratio, realized_pnl, funding_payment,
}
use crypto_exchange_lab.Perps.Store.{
  Market, Position, get_market, get_mark_price, get_position, list_positions, delete_position,
  insert_event, get_house_user_id, insert_funding_payment,
}
use crypto_exchange_lab.Perps.Client.{send_unfreeze, settle_balanced}
use crypto_exchange_lab.Stateful.{◌>>=◌, ask, found}
use crypto_exchange_lab.Perps.Engine.{
  CloseRequest, World, Action, on_account, on_perp, save_position, ref_type_perp_margin, parse_size,
}

-- The answer of `RiskForPosition`.
pub record RiskSnapshot : Type 0 where
  pub symbol : String
  pub side : PositionSide
  pub size : String
  pub entry_price : String
  pub mark_price : String
  pub leverage : ℕ
  pub margin : String
  pub unrealized_pnl_text : String
  pub equity_text : String
  pub maintenance : String
  pub ratio : String
  pub liquidation_risk : Bool

module _ ⦃d : Decimal⦄ where
  abbrev pub no_position : Failure
  no_position = Failure.app (record { code = Code.not_found; message = "no position" })

  -- The size that a request closes: all of it when none is named, and never more than there is.
  unfoldable pub size_to_close : String → Position → Result Amount
  unfolding parse_size
  size_to_close text pos = if text == "" then ok pos.size else (elim (parse_size text) [
    | err e ↦ err e
    | ok x ↦ if greater x pos.size then ok pos.size else ok x
  ])

  -- The margin that `closeSize` gives back.
  abbrev pub margin_release : Position → Amount → Amount
  margin_release pos close_size = d.quotient (pos.margin ⊗ close_size) pos.size

  -- No transfer for a profit of zero.
  unfoldable pub pay_pnl : String → String → String → Amount → Action {0} Unit
  pay_pnl trade_id user_id house_id pnl =
      if is_zero pnl
      then ask (λ w. ok tt)
      else on_account (settle_balanced trade_id user_id house_id (d.text pnl))

  abbrev pub reduced : Position → Amount → Amount → Position
  reduced pos close_size release = record pos {
    size = pos.size ⊖ close_size;
    margin = pos.margin ⊖ release;
  }

  -- Nothing is left, or the smaller position is saved.
  unfoldable pub keep_rest : Position → Amount → Amount → Action (Option Position)
  keep_rest pos close_size release =
      if less_or_equal (pos.size ⊖ close_size) nil
      then (do
        _ ←
            on_perp
              (λ t. record t { positions = delete_position pos.user_id pos.symbol t.positions })
        ask (λ w. ok none))
      else (do
        _ ← save_position (reduced pos close_size release)
        ask (λ w. ok (some (reduced pos close_size release))))

  -- `closeSize`; the uuid is that of the transfer.
  unfoldable pub close_size :
      Position → Amount → Amount → String → String → Action (Option Position × Amount)
  unfolding pay_pnl keep_rest
  close_size pos size mark event_type trade_id = do
    mkt ← ask (λ w. found Failure.plain (get_market pos.symbol w.perp.markets))
    let pnl = realized_pnl pos.side size pos.entry_price mark
    let release = margin_release pos size
    _ ←
        on_account
          (send_unfreeze ref_type_perp_margin pos.user_id mkt.quote_asset (d.text release) pos.id)
    house_id ← ask (λ w. found Failure.plain (get_house_user_id w.account.users))
    _ ← pay_pnl trade_id pos.user_id house_id pnl
    rest ← keep_rest pos size release
    _ ← on_perp (
        insert_event (record {
          user_id = pos.user_id;
          symbol = pos.symbol;
          event_type = event_type;
          size = size;
          price = mark;
          leverage = none;
          pnl = some pnl;
          ref_id = trade_id;
        }))
    ask (λ w. ok (rest, pnl))

  -- `Close`.
  unfoldable pub close_position : CloseRequest → String → Action (Option Position × Amount)
  unfolding close_size
  close_position req trade_id = do
    pos ← ask (λ w. found no_position (get_position req.user_id req.symbol w.perp.positions))
    mark ← ask (λ w. found Failure.plain (get_mark_price req.symbol w.perp.marks))
    size ← ask (λ w. size_to_close req.size pos)
    close_size pos size mark "CLOSE" trade_id

  -- `Liquidate`.
  unfoldable pub liquidate : String → String → String → Action (Option Position × Amount)
  unfolding close_size
  liquidate user_id symbol trade_id = do
    pos ← ask (λ w. found no_position (get_position user_id symbol w.perp.positions))
    mark ← ask (λ w. found Failure.plain (get_mark_price symbol w.perp.marks))
    close_size pos pos.size mark "LIQUIDATION" trade_id

  -- The ratio that decides on a liquidation.
  unfoldable pub ratio_of : Position → Market → Amount → Amount
  ratio_of pos mkt mark =
      margin_ratio (equity pos.margin (unrealized_pnl pos.side pos.size pos.entry_price mark))
        (maintenance_margin (notional pos.size mark) mkt.maint_margin_rate)

  -- `RiskForPosition`.
  unfoldable pub risk_for_position : String → String → World → Result RiskSnapshot
  unfolding ratio_of
  risk_for_position user_id symbol w = elim (get_position user_id symbol w.perp.positions) [
    | none ↦ err no_position
    | some pos ↦ elim (get_market symbol w.perp.markets) [
      | none ↦ broken
      | some mkt ↦ elim (get_mark_price symbol w.perp.marks) [
        | none ↦ broken
        | some mark ↦
            let pnl = unrealized_pnl pos.side pos.size pos.entry_price mark in
            ok (record {
              symbol = symbol;
              side = pos.side;
              size = d.text pos.size;
              entry_price = d.text pos.entry_price;
              mark_price = d.text mark;
              leverage = pos.leverage;
              margin = d.text pos.margin;
              unrealized_pnl_text = d.text pnl;
              equity_text = d.text (equity pos.margin pnl);
              maintenance =
                  d.text (maintenance_margin (notional pos.size mark) mkt.maint_margin_rate);
              ratio = d.text (ratio_of pos mkt mark);
              liquidation_risk = less (ratio_of pos mkt mark) (d.of_nat 1);
            })
      ]
    ]
  ]

  abbrev pub or_skip : Result RiskSnapshot → List RiskSnapshot → List RiskSnapshot
  or_skip (ok r) rest = r ∷ rest
  or_skip (err e) rest = rest

  unfoldable pub risks : String → World → List Position → List RiskSnapshot
  unfolding risk_for_position
  risks user_id w [] = []
  risks user_id w (p ∷ ps) = or_skip (risk_for_position user_id p.symbol w) (risks user_id w ps)

  -- `ListRisk`.
  unfoldable pub list_risk : String → World → List RiskSnapshot
  unfolding risks
  list_risk user_id w = risks user_id w (list_positions user_id w.perp.positions)

  -- A payment of zero is not made; another is made and then recorded.
  unfoldable pub pay_funding : Position → Amount → String → Amount → Action {0} Unit
  pay_funding pos rate trade_id mark =
      let payment = funding_payment pos.side pos.size mark rate in
      if is_zero payment then ask (λ w. ok tt) else (do
        house_id ← ask (λ w. found Failure.plain (get_house_user_id w.account.users))
        _ ← on_account (settle_balanced trade_id pos.user_id house_id (d.text payment))
        on_perp (
            insert_funding_payment (record {
              user_id = pos.user_id;
              symbol = pos.symbol;
              rate = rate;
              payment = payment;
              mark_price = mark;
              position_size = pos.size;
            })))

  -- `ApplyFunding`; the uuid is that of the transfer.
  unfoldable pub apply_funding : Position → Amount → String → Action {0} Unit
  unfolding pay_funding
  apply_funding pos rate trade_id = do
    mark ← ask (λ w. found Failure.plain (get_mark_price pos.symbol w.perp.marks))
    pay_funding pos rate trade_id mark
