-- ===== src/Perps/Api.antt =====
-- services/hyperliquid-engine/internal/handler/handler.go and the two routes of services/risk-engine on
-- the perpetual engine. A body that is not JSON is `none`. JSON and the routers are not modelled.
use crypto_exchange_lab.Prelude.{
  ℕ, Bool, String, List, [], ◌∷◌, Option, none, some, if◌then◌else◌, ◌==◌, map,
}
use crypto_exchange_lab.Decimal.{Decimal}
use crypto_exchange_lab.Exchange.{PositionSide}
use crypto_exchange_lab.Errors.{Code, Result, ok, err, reported}
use crypto_exchange_lab.Perps.Store.{Market, MarkPrice, Position, list_markets, list_positions}
use crypto_exchange_lab.Perps.Engine.{OpenRequest, CloseRequest, World, open_position}
use crypto_exchange_lab.Perps.Closing.{
  RiskSnapshot, close_position, liquidate, risk_for_position, list_risk,
}

pub record OpenBody : Type 0 where
  pub user_id : String
  pub symbol : String
  pub side : String
  pub size : String
  pub leverage : ℕ

pub record LiquidateBody : Type 0 where
  pub user_id : String
  pub symbol : String

-- The uuids that a request draws.
pub record Draws : Type 0 where
  pub pos_id : String
  pub freeze_ref : String
  pub trade_id : String

pub record MarketRow : Type 0 where
  pub symbol : String
  pub spot_symbol : String
  pub max_leverage : ℕ
  pub maint_margin_rate : String

pub record PositionResp : Type 0 where
  pub id : String
  pub symbol : String
  pub side : PositionSide
  pub size : String
  pub entry_price : String
  pub leverage : ℕ
  pub margin : String

pub record RiskColumns : Type 0 where
  pub mark_price : String
  pub unrealized_pnl : String
  pub margin_ratio : String
  pub liquidation_risk : Bool

-- A position with columns of its risk, where that is known.
pub record PositionRow : Type 0 where
  pub user_id : String
  pub position : PositionResp
  pub risk : Option RiskColumns

pub data Answer : Type 0 where
  market_list : List MarketRow → Answer
  mark_list : List (String × String) → Answer
  position_list : List PositionRow → Answer
  opened : PositionResp → Answer
  closed : Option PositionResp → String → Answer
  liquidated : Answer
  user_risk : String → List RiskSnapshot → Answer
  position_risk : RiskSnapshot → Answer
  failed : Code → Answer

pub data Request : Type 0 where
  listing_markets : Request
  listing_marks : Request
  listing_positions : String → Request
  opening : Option OpenBody → Request
  closing : Option CloseRequest → Request
  liquidating : Option LiquidateBody → Request
  asking_user_risk : String → Request
  asking_position_risk : String → String → Request

abbrev pub position_side_of : String → PositionSide
position_side_of s =
    if s == "LONG"
    then PositionSide.long
    else if s == "SHORT"
    then PositionSide.short
    else PositionSide.other s

abbrev pub open_request : OpenBody → OpenRequest
open_request body = record {
  user_id = body.user_id;
  symbol = body.symbol;
  side = position_side_of body.side;
  size = body.size;
  leverage = body.leverage;
}

-- The map from symbols to risks: a later one takes the place of an earlier.
abbrev pub last_risk : Option RiskSnapshot → String → List RiskSnapshot → Option RiskSnapshot
last_risk so_far s [] = so_far
last_risk so_far s (r ∷ rs) = last_risk (if r.symbol == s then some r else so_far) s rs

abbrev pub risk_columns : Option RiskSnapshot → Option RiskColumns
risk_columns none = none
risk_columns (some r) = some (record {
  mark_price = r.mark_price;
  unrealized_pnl = r.unrealized_pnl_text;
  margin_ratio = r.ratio;
  liquidation_risk = r.liquidation_risk;
})

module _ ⦃d : Decimal⦄ where
  -- `formatPos`.
  abbrev pub format_pos : Position → PositionResp
  format_pos p = record {
    id = p.id;
    symbol = p.symbol;
    side = p.side;
    size = d.text p.size;
    entry_price = d.text p.entry_price;
    leverage = p.leverage;
    margin = d.text p.margin;
  }

  abbrev pub format_rest : Option Position → Option PositionResp
  format_rest none = none
  format_rest (some p) = some (format_pos p)

  abbrev pub market_row : Market → MarketRow
  market_row m = record {
    symbol = m.symbol;
    spot_symbol = m.spot_symbol;
    max_leverage = m.max_leverage;
    maint_margin_rate = d.text m.maint_margin_rate;
  }

  abbrev pub mark_row : MarkPrice → String × String
  mark_row m = (m.symbol, d.text m.price)

  abbrev pub position_row : List RiskSnapshot → Position → PositionRow
  position_row risks p = record {
    user_id = p.user_id;
    position = format_pos p;
    risk = risk_columns (last_risk none p.symbol risks);
  }

  abbrev pub write {ℓ} : {A : Type ℓ} → (A → Answer) → Result A × World → Answer × World
  write format (ok a, w) = (format a, w)
  write format (err e, w) = (failed (reported e), w)

  abbrev pub write_risk : Result RiskSnapshot → Answer
  write_risk (ok r) = position_risk r
  write_risk (err e) = failed (reported e)

  -- `listPositions`.
  unfoldable pub handle_positions : String → World → Answer
  unfolding list_positions list_risk
  handle_positions user_id w =
      if user_id == ""
      then failed Code.invalid_argument
      else position_list
          (map (position_row (list_risk user_id w)) (list_positions user_id w.perp.positions))

  -- `open`, `close` and `liquidate`.
  unfoldable pub handle_open : Draws → Option OpenBody → World → Answer × World
  unfolding open_position
  handle_open draws none w = (failed Code.invalid_argument, w)
  handle_open draws (some body) w =
      write (λ p. opened (format_pos p))
        (open_position (open_request body) draws.pos_id draws.freeze_ref w)

  unfoldable pub handle_close : Draws → Option CloseRequest → World → Answer × World
  unfolding close_position
  handle_close draws none w = (failed Code.invalid_argument, w)
  handle_close draws (some body) w =
      write (λ x. closed (format_rest x.0) (d.text x.1)) (close_position body draws.trade_id w)

  unfoldable pub handle_liquidate : Draws → Option LiquidateBody → World → Answer × World
  unfolding liquidate
  handle_liquidate draws none w = (failed Code.invalid_argument, w)
  handle_liquidate draws (some body) w =
      write (λ x. liquidated) (liquidate body.user_id body.symbol draws.trade_id w)

  -- The routes of both services.
  unfoldable pub serve : Draws → Request → World → Answer × World
  unfolding handle_positions handle_open handle_close handle_liquidate list_markets list_risk
      risk_for_position
  serve draws listing_markets w = (market_list (map market_row (list_markets w.perp)), w)
  serve draws listing_marks w = (mark_list (map mark_row w.perp.marks), w)
  serve draws (listing_positions user_id) w = (handle_positions user_id w, w)
  serve draws (opening body) w = handle_open draws body w
  serve draws (closing body) w = handle_close draws body w
  serve draws (liquidating body) w = handle_liquidate draws body w
  serve draws (asking_user_risk user_id) w = (user_risk user_id (list_risk user_id w), w)
  serve draws (asking_position_risk user_id symbol) w =
      (write_risk (risk_for_position user_id symbol w), w)
