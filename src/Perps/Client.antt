-- ===== src/Perps/Client.antt =====
-- packages/tradeclients/account.go: the requests to account-service, which answers at once. The
-- message of an error that comes back is not modelled.
use crypto_exchange_lab.Prelude.{String, List, [], ◌∷◌, some, if◌then◌else◌, nat_eqb}
use Prim.Native.Char.{code}
use crypto_exchange_lab.Decimal.{Decimal}
use crypto_exchange_lab.Errors.{Result, ok, fails}
use crypto_exchange_lab.Account.Store.{Tables}
use crypto_exchange_lab.Account.Handler.{
  LegReq, SettleReq, Request, freezing, unfreezing, settling, Reply, failed, serve,
}

-- `negateAmount`, on the text of an amount.
unfoldable pub negate_amount : String → String
negate_amount String.[] = "-"
negate_amount (String.◌∷◌ c s) =
    if nat_eqb (code c) b'-' then s else String.◌∷◌ "-" (String.◌∷◌ c s)

module _ ⦃d : Decimal⦄ where
  -- What `post` makes of an envelope.
  unfoldable pub answer : Reply × Tables → Result Tables
  answer (failed c, t) = fails c ""
  answer (_, t) = ok t

  unfoldable pub post : Request → Tables → Result Tables
  unfolding answer
  post r t = answer (serve r t)

  -- `Freeze`, `Unfreeze` and `SettleTrade`.
  unfoldable pub send_freeze : String → String → String → String → String → Tables → Result Tables
  unfolding post
  send_freeze ref_type user_id asset amount ref_id t =
      post
        (freezing (
          some (record {
            user_id = user_id;
            asset = asset;
            amount = amount;
            ref_type = ref_type;
            ref_id = ref_id;
          })))
        t

  unfoldable pub send_unfreeze : String → String → String → String → String → Tables → Result Tables
  unfolding post
  send_unfreeze ref_type user_id asset amount ref_id t =
      post
        (unfreezing (
          some (record {
            user_id = user_id;
            asset = asset;
            amount = amount;
            ref_type = ref_type;
            ref_id = ref_id;
          })))
        t

  unfoldable pub send_settle_trade : SettleReq → Tables → Result Tables
  unfolding post
  send_settle_trade req t = post (settling (some req)) t

  -- The two legs of `SettleBalanced`.
  abbrev pub balanced_legs : String → String → String → List LegReq
  balanced_legs user_id house_id amount =
      record { user_id = user_id; asset = "USDT"; amount = amount }
      ∷ record { user_id = house_id; asset = "USDT"; amount = negate_amount amount }
      ∷ []

  unfoldable pub settle_balanced : String → String → String → String → Tables → Result Tables
  unfolding send_settle_trade
  settle_balanced trade_id user_id house_id amount t =
      send_settle_trade
        (record {
          trade_id = trade_id;
          legs = balanced_legs user_id house_id amount;
          freeze_release = [];
        })
        t
