-- ===== src/Perps/Requests.antt =====
-- What a request to account-service that was answered without an error did there.
use crypto_exchange_lab.Prelude.{
  ◌≡◌, sym, ap, ◌∙◌, true, String, List, [], ◌∷◌, ◌==◌, ◌||◌, arith, inl, inr, Bool-cases,
}
use crypto_exchange_lab.Decimal.{Decimal, Amount}
use crypto_exchange_lab.Errors.{Result, ok, err, bind_ok}
use crypto_exchange_lab.Account.Store.{LedgerLeg, FreezeRelease, Tables, has_reference}
use crypto_exchange_lab.Account.Ledger.{insert_transaction, verify_ledger_balance, last_id}
use crypto_exchange_lab.Account.Operations.{
  unfreeze, settle_trade, apply_trade_leg, apply_legs, release_frozen, release_all,
}
use crypto_exchange_lab.Account.Posting.{apply_trade_leg-IsPosted, release_frozen-IsReleased}
use crypto_exchange_lab.Account.Settled.{insert_transaction_ok}
use crypto_exchange_lab.Account.Handler.{
  SettleReq, status, finish, parse, parse_legs, parse_releases, is_empty, unfreeze_parsed,
  settle_parsed, handle_unfreeze, handle_settle_trade, serve,
}
use crypto_exchange_lab.Perps.Client.{answer, post, send_unfreeze, send_settle_trade}

module _ ⦃d : Decimal⦄ where
  pub answer-finish :
      (s : String) (t t' : Tables) (r : Result Tables)
      → answer (finish (status s) t r) ≡ ok t'
      → r ≡ ok t'
  unfolding answer finish
  answer-finish s t t' (ok u) h = h
  answer-finish s t t' (err e) h = absurd (ground arith)

  pub send_unfreeze_ok :
      (ref_type user_id asset amount ref_id : String) (t t' : Tables)
      → send_unfreeze ref_type user_id asset amount ref_id t ≡ ok t'
      → (x : Amount) × (unfreeze user_id asset x ref_type ref_id t ≡ ok t')
  unfolding send_unfreeze post serve handle_unfreeze unfreeze_parsed
  send_unfreeze_ok ref_type user_id asset amount ref_id t t' h =
      let (x, p, q) =
        bind_ok (parse amount) (λ y. unfreeze user_id asset y ref_type ref_id t)
          (answer-finish "unfrozen" t t' _ h) in
      (x, q)

  apply_legs_same :
      (txn : _) (legs : List LedgerLeg) (t t' : Tables)
      → apply_legs txn legs t ≡ ok t'
      → t'.transactions ≡ t.transactions
  unfolding apply_legs
  apply_legs_same txn [] t t' h = ground arith
  apply_legs_same txn (leg ∷ legs) t t' h =
      let (u, p, q) = bind_ok (apply_trade_leg txn leg t) (apply_legs txn legs) h in
      apply_legs_same txn legs u t' q
      ∙ (apply_trade_leg-IsPosted txn leg t u p).kept.same_transactions

  release_all_same :
      (frs : List FreezeRelease) (t t' : Tables)
      → release_all frs t ≡ ok t'
      → t'.transactions ≡ t.transactions
  unfolding release_all
  release_all_same [] t t' h = ground arith
  release_all_same (fr ∷ frs) t t' h =
      let (u, p, q) = bind_ok (release_frozen fr t) (release_all frs) h in
      release_all_same frs u t' q ∙ (release_frozen-IsReleased fr t u p).kept.same_transactions

  -- A reference in the ledger stays there.
  abbrev pub StaysUsed : String → String → Tables → Tables → Type 0
  StaysUsed ref_type ref_id t t' =
      has_reference ref_type ref_id t.transactions ≡ true
      → has_reference ref_type ref_id t'.transactions ≡ true

  settle_trade_stays :
      (k i ref_id : String) (legs : List LedgerLeg) (release : List FreezeRelease) (t t' : Tables)
      → settle_trade ref_id legs release t ≡ ok t'
      → StaysUsed k i t t'
  unfolding settle_trade verify_ledger_balance
  settle_trade_stays k i ref_id legs release t t' h used =
      elim (Bool-cases (has_reference "trade" ref_id t.transactions)) [
        | inl e ↦ ground arith
        | inr e ↦
            let (t1, p, q) =
              bind_ok (insert_transaction "trade" ref_id t) _ (rw (e, settle_trade) at h) in
            let (t2, r, l) = bind_ok (apply_legs (last_id t1) legs t1) _ q in
            let (t3, u, v) = bind_ok (release_all release t2) _ l in
            let same : t3 ≡ t' = ground arith in
            ap (has_reference k i) (
              ap (λ x. x.transactions) (sym same)
              ∙ release_all_same release t2 t3 u
              ∙ apply_legs_same (last_id t1) legs t1 t2 r
              ∙ ap (λ x. x.transactions) (insert_transaction_ok "trade" ref_id t t1 p))
            ∙ ground (arith, used)
      ]

  settle_parsed_stays :
      (k i : String) (b : SettleReq) (t t' : Tables)
      → settle_parsed b t ≡ ok t'
      → StaysUsed k i t t'
  unfolding settle_parsed
  settle_parsed_stays k i b t t' h =
      let (legs, p, q) = bind_ok (parse_legs b.legs) _ h in
      let (release, p', q') =
        bind_ok (parse_releases b.freeze_release) (λ y. settle_trade b.trade_id legs y t) q in
      settle_trade_stays k i b.trade_id legs release t t' q'

  pub send_settle_trade_stays :
      (k i : String) (b : SettleReq) (t t' : Tables)
      → send_settle_trade b t ≡ ok t'
      → StaysUsed k i t t'
  unfolding send_settle_trade post serve handle_settle_trade answer
  send_settle_trade_stays k i b t t' h = elim (Bool-cases (b.trade_id == "" || is_empty b.legs)) [
    | inl e ↦ absurd (ground arith)
    | inr e ↦
        settle_parsed_stays k i b t t'
          (answer-finish "settled" t t' (settle_parsed b t) (rw e at h))
  ]
