-- ===== src/Perps/Posted.antt =====
-- What a request of the account client keeps of account-service's tables.
use crypto_exchange_lab.Prelude.{◌≡◌, sym, subst, String, arith}
use crypto_exchange_lab.Decimal.{Decimal}
use crypto_exchange_lab.Errors.{Result, ok}
use crypto_exchange_lab.Account.Store.{Tables}
use crypto_exchange_lab.Account.Soundness.{IsSound}
use crypto_exchange_lab.Account.Handler.{Reply, Request, SettleReq, serve}
use crypto_exchange_lab.Account.Serving.{serve-IsSound}
use crypto_exchange_lab.Perps.Client.{
  answer, post, send_freeze, send_unfreeze, send_settle_trade, settle_balanced,
}

module _ ⦃d : Decimal⦄ where
  answer_ok : (p : Reply × Tables) (t : Tables) → answer p ≡ ok t → t ≡ p.1
  unfolding answer
  answer_ok (r, u) t h = ground arith

  -- A request that is answered with success keeps the tables sound.
  pub post-IsSound : (r : Request) (t t' : Tables) → post r t ≡ ok t' → IsSound t → IsSound t'
  unfolding post
  post-IsSound r t t' h s = subst IsSound (sym (answer_ok (serve r t) t' h)) (serve-IsSound r t s)

  -- A call of the client that keeps a property of the tables.
  abbrev pub KeepsTables : (Tables → Type 0) → (Tables → Result Tables) → Type 0
  KeepsTables Fine f = (t t' : Tables) → f t ≡ ok t' → Fine t → Fine t'

  module _ (Fine : Tables → Type 0) (posted : (r : Request) → KeepsTables Fine (post r)) where
    pub send_freeze-KeepsTables : (k u a x i : String) → KeepsTables Fine (send_freeze k u a x i)
    unfolding send_freeze
    send_freeze-KeepsTables k u a x i t t' = posted _ t t'

    pub send_unfreeze-KeepsTables :
        (k u a x i : String) → KeepsTables Fine (send_unfreeze k u a x i)
    unfolding send_unfreeze
    send_unfreeze-KeepsTables k u a x i t t' = posted _ t t'

    pub send_settle_trade-KeepsTables : (req : SettleReq) → KeepsTables Fine (send_settle_trade req)
    unfolding send_settle_trade
    send_settle_trade-KeepsTables req t t' = posted _ t t'

    pub settle_balanced-KeepsTables :
        (i u h x : String) → KeepsTables Fine (settle_balanced i u h x)
    unfolding settle_balanced send_settle_trade
    settle_balanced-KeepsTables i u h x t t' = posted _ t t'

  -- What the calls of the perpetual engine on account-service keep.
  pub record IsClientKept (Fine : Tables → Type 0) : Type 0 where
    pub frozen : (k u a x i : String) → KeepsTables Fine (send_freeze k u a x i)
    pub unfrozen : (k u a x i : String) → KeepsTables Fine (send_unfreeze k u a x i)
    pub balanced : (i u h x : String) → KeepsTables Fine (settle_balanced i u h x)

  -- What every request keeps, they keep.
  pub posted-IsClientKept :
      (Fine : Tables → Type 0) → ((r : Request) → KeepsTables Fine (post r)) → IsClientKept Fine
  posted-IsClientKept Fine posted = record {
    frozen = send_freeze-KeepsTables Fine posted;
    unfrozen = send_unfreeze-KeepsTables Fine posted;
    balanced = settle_balanced-KeepsTables Fine posted;
  }

  pub IsSound-IsClientKept : IsClientKept IsSound
  IsSound-IsClientKept = posted-IsClientKept IsSound post-IsSound
