-- ===== src/Account/Serving.antt =====
-- What a request to account-service does to the tables, whatever it asks for.
use crypto_exchange_lab.Prelude.{◌≡◌, refl, none, some, ◌==◌, ◌||◌, inl, inr, Bool-cases}
use crypto_exchange_lab.Decimal.{Decimal}
use crypto_exchange_lab.Errors.{Result, ok, err, bind_ok}
use crypto_exchange_lab.Account.Store.{Tables}
use crypto_exchange_lab.Account.Operations.{freeze, unfreeze, settle_trade, create_user}
use crypto_exchange_lab.Account.Handler.{
  CollateralReq, SettleReq, Request, list_users, create, show_balances, freezing, unfreezing,
  settling, Reply, status, created, finish, parse, parse_legs, parse_releases, is_empty,
  freeze_parsed, unfreeze_parsed, settle_parsed, handle_freeze, handle_unfreeze,
  handle_settle_trade, handle_create_user, handle_get_balances, serve,
}
use crypto_exchange_lab.Account.Soundness.{IsSound, freeze-IsSound, unfreeze-IsSound}
use crypto_exchange_lab.Account.SoundTrades.{settle_trade-IsSound, create_user-IsSound}

module _ ⦃d : Decimal⦄ where
  finish-IsSound :
      (done : Reply) (t : Tables) (r : Result Tables)
      → ((t' : Tables) → r ≡ ok t' → IsSound t')
      → IsSound t
      → IsSound (finish done t r).1
  unfolding finish
  finish-IsSound done t (ok t') f s = f t' refl
  finish-IsSound done t (err e) f s = s

  freeze_parsed-IsSound :
      (b : CollateralReq) (t t' : Tables) → freeze_parsed b t ≡ ok t' → IsSound t → IsSound t'
  unfolding freeze_parsed
  freeze_parsed-IsSound b t t' h s =
      let (x, p, q) =
        bind_ok (parse b.amount) (λ y. freeze b.user_id b.asset y b.ref_type b.ref_id t) h in
      freeze-IsSound b.user_id b.asset x b.ref_type b.ref_id t t' q s

  unfreeze_parsed-IsSound :
      (b : CollateralReq) (t t' : Tables) → unfreeze_parsed b t ≡ ok t' → IsSound t → IsSound t'
  unfolding unfreeze_parsed
  unfreeze_parsed-IsSound b t t' h s =
      let (x, p, q) =
        bind_ok (parse b.amount) (λ y. unfreeze b.user_id b.asset y b.ref_type b.ref_id t) h in
      unfreeze-IsSound b.user_id b.asset x b.ref_type b.ref_id t t' q s

  settle_parsed-IsSound :
      (b : SettleReq) (t t' : Tables) → settle_parsed b t ≡ ok t' → IsSound t → IsSound t'
  unfolding settle_parsed
  settle_parsed-IsSound b t t' h s =
      let (legs, p, q) = bind_ok (parse_legs b.legs) _ h in
      let (release, p', q') =
        bind_ok (parse_releases b.freeze_release) (λ y. settle_trade b.trade_id legs y t) q in
      settle_trade-IsSound b.trade_id legs release t t' q' s

  -- Any request keeps the tables sound: whatever it asks for, no balance is below zero afterwards.
  pub serve-IsSound : (r : Request) (t : Tables) → IsSound t → IsSound (serve r t).1
  unfolding serve handle_freeze handle_unfreeze handle_settle_trade handle_create_user
      handle_get_balances
  serve-IsSound list_users t s = s
  serve-IsSound (show_balances id) t s = s
  serve-IsSound (create none new_id) t s = s
  serve-IsSound (create (some name) new_id) t s = elim (Bool-cases (name == "")) [
    | inl e ↦ rw e s
    | inr e ↦ rw e (
        finish-IsSound (created new_id name) t (create_user new_id name t)
          (λ t' h. create_user-IsSound new_id name t t' h s) s)
  ]
  serve-IsSound (freezing none) t s = s
  serve-IsSound (freezing (some b)) t s =
      finish-IsSound (status "frozen") t (freeze_parsed b t)
        (λ t' h. freeze_parsed-IsSound b t t' h s) s
  serve-IsSound (unfreezing none) t s = s
  serve-IsSound (unfreezing (some b)) t s =
      finish-IsSound (status "unfrozen") t (unfreeze_parsed b t)
        (λ t' h. unfreeze_parsed-IsSound b t t' h s) s
  serve-IsSound (settling none) t s = s
  serve-IsSound (settling (some b)) t s = elim (Bool-cases (b.trade_id == "" || is_empty b.legs)) [
    | inl e ↦ rw e s
    | inr e ↦ rw e (
        finish-IsSound (status "settled") t (settle_parsed b t)
          (λ t' h. settle_parsed-IsSound b t t' h s) s)
  ]
