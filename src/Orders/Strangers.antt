-- ===== src/Orders/Strangers.antt =====
-- A match with somebody whom account-service does not know, such as the owner of the demo quotes.
use crypto_exchange_lab.Prelude.{
  ◌≡◌, ◌≢◌, sym as inverse, ap, subst, ◌∙◌, ℕ, true, false, false≢true, String, List, [], ◌∷◌, ◌==◌,
  ◌||◌, arith, ◌⊎◌, inl, inr, Bool-cases, All, All-map, length,
}
use crypto_exchange_lab.Decimal.{Decimal, Amount, ◌⊗◌}
use crypto_exchange_lab.Errors.{Result, ok, err, bind_ok}
use crypto_exchange_lab.Stateful.{written, bind_action}
use crypto_exchange_lab.Account.Store.{
  LedgerLeg, FreezeRelease, Tables, has_asset, has_user, has_reference,
}
use crypto_exchange_lab.Account.Ledger.{insert_transaction, insert_entry, last_id}
use crypto_exchange_lab.Account.Operations.{apply_trade_leg, apply_legs, settle_trade}
use crypto_exchange_lab.Account.Posting.{apply_trade_leg-IsPosted}
use crypto_exchange_lab.Account.Settled.{insert_transaction_ok}
use crypto_exchange_lab.Account.Handler.{
  SettleReq, parse, parse_legs, parse_releases, is_empty, settle_parsed, handle_settle_trade, serve,
}
use crypto_exchange_lab.Perps.Client.{answer, post, send_settle_trade}
use crypto_exchange_lab.Perps.Requests.{answer-finish}
use crypto_exchange_lab.Orders.Store.{Symbol, Trade}
use crypto_exchange_lab.Orders.Settle.{MatchTrade, release, trade_legs, settle_match}
use crypto_exchange_lab.Orders.Balanced.{read_legs, parse_legs-trade_legs}
use crypto_exchange_lab.Orders.Flow.{Engine, Draws, Desk, settle_all}

module _ ⦃d : Decimal⦄ where
  -- The user of a leg in a known asset is known.
  abbrev pub IsKnownLeg : Tables → LedgerLeg → Type 0
  IsKnownLeg t l = has_asset l.asset t.assets ≡ true → has_user l.user_id t.users ≡ true

  insert_entry-IsKnownLeg :
      (txn : ℕ) (l : LedgerLeg) (t t' : Tables) → insert_entry txn l t ≡ ok t' → IsKnownLeg t l
  unfolding insert_entry
  insert_entry-IsKnownLeg txn l t t' h k = ground arith

  apply_legs-IsKnownLeg :
      (txn : ℕ) (legs : List LedgerLeg) (t t' : Tables)
      → apply_legs txn legs t ≡ ok t'
      → All (IsKnownLeg t) legs
  unfolding apply_legs apply_trade_leg
  apply_legs-IsKnownLeg txn [] t t' h = tt
  apply_legs-IsKnownLeg txn (l ∷ ls) t t' h =
      let (t2, p, q) = bind_ok (apply_trade_leg txn l t) _ h in
      let (t1, r, s) = bind_ok (insert_entry txn l t) _ p in
      let kept = (apply_trade_leg-IsPosted txn l t t2 p).kept in
      (
        insert_entry-IsKnownLeg txn l t t1 r,
        All-map
            (λ x k a.
              subst (λ us. has_user x.user_id us ≡ true) kept.same_users
                (k (subst (λ names. has_asset x.asset names ≡ true) (inverse kept.same_assets) a)))
            ls (apply_legs-IsKnownLeg txn ls t2 t' q),
      )

  settle_trade-IsKnownLeg :
      (id : String) (legs : List LedgerLeg) (release : List FreezeRelease) (t t' : Tables)
      → has_reference "trade" id t.transactions ≡ false
      → settle_trade id legs release t ≡ ok t'
      → All (IsKnownLeg t) legs
  unfolding settle_trade
  settle_trade-IsKnownLeg id legs release t t' fresh h =
      let (t1, p, q) =
        bind_ok (insert_transaction "trade" id t) _ (rw (fresh, settle_trade) at h) in
      let (t2, r, s) = bind_ok (apply_legs (last_id t1) legs t1) _ q in
      let same = insert_transaction_ok "trade" id t t1 p in
      subst (λ x. All (IsKnownLeg x) legs) same (apply_legs-IsKnownLeg (last_id t1) legs t1 t2 r)

  send_settle_trade_ok :
      (req : SettleReq) (t t' : Tables)
      → send_settle_trade req t ≡ ok t'
      → settle_parsed req t ≡ ok t'
  unfolding send_settle_trade post serve handle_settle_trade answer
  send_settle_trade_ok req t t' h = elim (Bool-cases (req.trade_id == "" || is_empty req.legs)) [
    | inl e ↦ absurd (ground arith)
    | inr e ↦ answer-finish "settled" t t' (settle_parsed req t) (rw e at h)
  ]

  -- A match is settled under a new id only if both its parties are users of account-service.
  settle_match-parties :
      (id : String) (sym : Symbol) (mt : MatchTrade) (t t' : Tables)
      → has_reference "trade" id t.transactions ≡ false
      → has_asset sym.base_asset t.assets ≡ true
      → settle_match id sym mt t ≡ ok t'
      → (has_user mt.buyer_user_id t.users ≡ true) × (has_user mt.seller_user_id t.users ≡ true)
  unfolding settle_match settle_parsed
  settle_match-parties id sym mt t t' fresh known h =
      let (p, e, h1) = bind_ok (parse mt.price) _ h in
      let (q, f, h2) = bind_ok (parse mt.quantity) _ h1 in
      let (legs, g, h3) =
        bind_ok (parse_legs (trade_legs sym mt (p ⊗ q) q)) _ (send_settle_trade_ok _ t t' h2) in
      let (back, k, h4) =
        bind_ok
          (parse_releases (
            release mt.buyer_user_id sym.quote_asset (p ⊗ q)
            ∷ release mt.seller_user_id sym.base_asset q
            ∷ []))
          (λ y. settle_trade id legs y t) h3 in
      let good = settle_trade-IsKnownLeg id legs back t t' fresh h4 in
      let read : legs ≡ read_legs sym mt (p ⊗ q) q =
        ok_inj (inverse g ∙ parse_legs-trade_legs sym mt (p ⊗ q) q) in
      let all = subst (All (IsKnownLeg t)) read good in (all.1.0 known, all.1.1.0 known)
    where
      ok_inj : {x y : List LedgerLeg} → ok x ≡ ok y → x ≡ y
      ok_inj {x = x} {y = y} e = ground arith

  account_ok :
      (w w' : Desk) (r : Result Tables)
      → written (λ t u. record u { account = t }) w r ≡ (ok tt, w')
      → r ≡ ok w'.account
  account_ok w w' (ok t) h = ap (λ x. ok x.1.account) h
  account_ok w w' (err e) h = absurd cc

  -- The loop of `PlaceOrder` ends in an error at a match with somebody that account-service does not
  -- know, as the owner of the demo quotes is: the order is in the book's hands by then.
  pub settle_all_stranger :
      (e : Engine) (draws : Draws) (sym : Symbol) (mt : MatchTrade) (rest : List MatchTrade)
      (filled : Amount) (recorded : List Trade) (w w' : Desk) (r : Amount × List Trade)
      → has_reference "trade" (draws.trade_id (length recorded)) w.account.transactions ≡ false
      → has_asset sym.base_asset w.account.assets ≡ true
      → (has_user mt.buyer_user_id w.account.users ≡ false)
        ⊎ (has_user mt.seller_user_id w.account.users ≡ false)
      → settle_all e draws sym (mt ∷ rest) filled recorded w ≢ (ok r, w')
  unfolding settle_all
  settle_all_stranger e draws sym mt rest filled recorded w w' r fresh known strange h =
      let (u, w1, p, q) = bind_action _ _ w w' r h in
      let both =
        settle_match-parties (draws.trade_id (length recorded)) sym mt w.account w1.account fresh
          known (account_ok w w1 _ p) in
      elim strange [
        | inl s ↦ false≢true (inverse s ∙ both.0)
        | inr s ↦ false≢true (inverse s ∙ both.1)
      ]
