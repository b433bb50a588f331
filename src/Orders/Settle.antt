-- ===== src/Orders/Settle.antt =====
-- `collateralForOrder` and `settleMatch` of packages/orderflow/flow.go.
use crypto_exchange_lab.Prelude.{String, List, [], ◌∷◌, if◌then◌else◌}
use crypto_exchange_lab.Decimal.{Decimal, Amount, ◌⊗◌, neg, is_zero}
use crypto_exchange_lab.Exchange.{Side}
use crypto_exchange_lab.Errors.{Code, Result, ok, fails, ◌>>=◌}
use crypto_exchange_lab.Account.Store.{Tables}
use crypto_exchange_lab.Account.Handler.{CollateralReq, LegReq, parse}
use crypto_exchange_lab.Orders.Store.{Symbol}
use crypto_exchange_lab.Perps.Client.{send_settle_trade}

-- `tradeclients.MatchTrade`.
pub record MatchTrade : Type 0 where
  pub id : String
  pub symbol : String
  pub buy_order_id : String
  pub sell_order_id : String
  pub buyer_user_id : String
  pub seller_user_id : String
  pub price : String
  pub quantity : String

module _ ⦃d : Decimal⦄ where
  -- Every side but BUY pays with the base asset.
  unfoldable pub collateral_for_order : Side → Symbol → Amount → Amount → Result (String × Amount)
  collateral_for_order Side.buy sym qty price =
      if is_zero price
      then fails Code.invalid_argument "market buy not supported in Phase 2 — use limit"
      else ok (sym.quote_asset, qty ⊗ price)
  collateral_for_order _ sym qty price = ok (sym.base_asset, qty)

  unfoldable pub trade_legs : Symbol → MatchTrade → Amount → Amount → List LegReq
  trade_legs sym mt notional q =
      record { user_id = mt.buyer_user_id; asset = sym.quote_asset; amount = d.text (neg notional) }
      ∷ record { user_id = mt.buyer_user_id; asset = sym.base_asset; amount = d.text q }
      ∷ record { user_id = mt.seller_user_id; asset = sym.base_asset; amount = d.text (neg q) }
      ∷ record { user_id = mt.seller_user_id; asset = sym.quote_asset; amount = d.text notional }
      ∷ []

  -- A release names neither a type nor an id of a reference.
  abbrev pub release : String → String → Amount → CollateralReq
  release user_id asset x = record {
    user_id = user_id;
    asset = asset;
    amount = d.text x;
    ref_type = "";
    ref_id = "";
  }

  unfoldable pub settle_match : String → Symbol → MatchTrade → Tables → Result Tables
  unfolding trade_legs
  settle_match trade_id sym mt t = do
    p ← parse mt.price
    q ← parse mt.quantity
    send_settle_trade
        (record {
          trade_id = trade_id;
          legs = trade_legs sym mt (p ⊗ q) q;
          freeze_release =
              release mt.buyer_user_id sym.quote_asset (p ⊗ q)
              ∷ release mt.seller_user_id sym.base_asset q
              ∷ [];
        })
        t
