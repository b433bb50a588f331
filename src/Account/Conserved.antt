-- ===== src/Account/Conserved.antt =====
-- What all users hold, around the requests to account-service that settle no trade.
use crypto_exchange_lab.Prelude.{
  ◌≡◌, refl, ap, ◌∙◌, Bool, true, false, String, List, [], ◌∷◌, ◌++◌, ◌==◌, none, some, arith, inl,
  inr, Bool-cases,
}
use crypto_exchange_lab.Decimal.{Decimal, nil}
use crypto_exchange_lab.Decimal.Laws.{plus-zero, plus_left_zero}
use crypto_exchange_lab.Errors.{Result, ok, err, bind_ok}
use crypto_exchange_lab.Account.Store.{Balance, Tables}
use crypto_exchange_lab.Account.Operations.{freeze, unfreeze, empty_rows, create_user}
use crypto_exchange_lab.Account.Rows.{held}
use crypto_exchange_lab.Account.Collateral.{freeze-held, unfreeze-held}
use crypto_exchange_lab.Account.Handler.{
  CollateralReq, Request, list_users, create, show_balances, freezing, unfreezing, settling, Reply,
  status, created, finish, parse, freeze_parsed, unfreeze_parsed, handle_freeze, handle_unfreeze,
  handle_create_user, handle_get_balances, serve,
}

-- The request settles a trade.
abbrev pub is_settlement : Request → Bool
is_settlement (settling body) = true
is_settlement _ = false

module _ ⦃d : Decimal⦄ where
  held-empty_rows :
      (b u : String) (rs : List Balance) (assets : List String)
      → held b (rs ++ empty_rows u assets) ≡ held b rs
  unfolding held empty_rows
  held-empty_rows b u [] [] = refl
  held-empty_rows b u [] (a ∷ more) = ground (
    arith,
    held-empty_rows b u [] more,
    plus_left_zero (held b (empty_rows u more)),
    plus-zero nil,
  )
  held-empty_rows b u (r ∷ rs) assets = ground (arith, held-empty_rows b u rs assets)

  create_user-held :
      (u name : String) (t t' : Tables)
      → create_user u name t ≡ ok t'
      → (b : String) → held b t'.balances ≡ held b t.balances
  unfolding create_user
  create_user-held u name t t' h b =
      ap (held b) (ground (arith, h)) ∙ held-empty_rows b u t.balances t.assets

  finish-held :
      (b : String) (done : Reply) (t : Tables) (r : Result Tables)
      → ((t' : Tables) → r ≡ ok t' → held b t'.balances ≡ held b t.balances)
      → held b (finish done t r).1.balances ≡ held b t.balances
  unfolding finish
  finish-held b done t (ok t') f = f t' refl
  finish-held b done t (err e) f = refl

  freeze_parsed-held :
      (c : CollateralReq) (t t' : Tables)
      → freeze_parsed c t ≡ ok t'
      → (b : String) → held b t'.balances ≡ held b t.balances
  unfolding freeze_parsed
  freeze_parsed-held c t t' h =
      let (x, p, q) =
        bind_ok (parse c.amount) (λ y. freeze c.user_id c.asset y c.ref_type c.ref_id t) h in
      freeze-held c.user_id c.asset x c.ref_type c.ref_id t t' q

  unfreeze_parsed-held :
      (c : CollateralReq) (t t' : Tables)
      → unfreeze_parsed c t ≡ ok t'
      → (b : String) → held b t'.balances ≡ held b t.balances
  unfolding unfreeze_parsed
  unfreeze_parsed-held c t t' h =
      let (x, p, q) =
        bind_ok (parse c.amount) (λ y. unfreeze c.user_id c.asset y c.ref_type c.ref_id t) h in
      unfreeze-held c.user_id c.asset x c.ref_type c.ref_id t t' q

  -- A request to account-service that settles no trade leaves what all users together hold of an asset,
  -- available and frozen, as it was, whatever is asked and whether it succeeds or not.
  pub serve-held :
      (r : Request) (t : Tables)
      → is_settlement r ≡ false
      → (b : String) → held b (serve r t).1.balances ≡ held b t.balances
  unfolding serve handle_freeze handle_unfreeze handle_create_user handle_get_balances
  serve-held list_users t h b = refl
  serve-held (show_balances id) t h b = refl
  serve-held (create none new_id) t h b = refl
  serve-held (create (some name) new_id) t h b = elim (Bool-cases (name == "")) [
    | inl e ↦ rw e refl
    | inr e ↦ rw e (
        finish-held b (created new_id name) t (create_user new_id name t)
          λ t' k. create_user-held new_id name t t' k b)
  ]
  serve-held (freezing none) t h b = refl
  serve-held (freezing (some c)) t h b =
      finish-held b (status "frozen") t (freeze_parsed c t) λ t' k. freeze_parsed-held c t t' k b
  serve-held (unfreezing none) t h b = refl
  serve-held (unfreezing (some c)) t h b =
      finish-held b (status "unfrozen") t (unfreeze_parsed c t)
        λ t' k. unfreeze_parsed-held c t t' k b
  serve-held (settling body) t h b = absurd cc
