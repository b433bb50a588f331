-- ===== src/Account/SoundTrades.antt =====
-- The invariant of the tables under `SettleTrade` and `CreateUser`.
use crypto_exchange_lab.Prelude.{
  ℕ, ◌≤◌, ◌≡◌, refl, sym, subst, true, String, List, [], ◌∷◌, ◌++◌, arith, inl, inr, Bool-cases,
  eq_refl, All, All-map, All-append, length,
}
use crypto_exchange_lab.Decimal.{Decimal, nil}
use crypto_exchange_lab.Decimal.Laws.{cmp_refl}
use crypto_exchange_lab.Errors.{ok, bind_ok}
use crypto_exchange_lab.Account.Store.{
  User, LedgerLeg, FreezeRelease, Tables, has_asset, has_user, has_reference,
}
use crypto_exchange_lab.Account.Ledger.{
  insert_transaction, insert_entry, verify_ledger_balance, last_id,
}
use crypto_exchange_lab.Account.Operations.{
  credit, consume, apply_trade_leg, apply_legs, release_frozen, release_all, settle_trade,
  create_user, empty_rows, has_username,
}
use crypto_exchange_lab.Account.Rows.{update_row-IsChanged}
use crypto_exchange_lab.Account.Posting.{insert_entry_ok, entered, applied_ok}
use crypto_exchange_lab.Account.Soundness.{
  IsGood, IsSound, IsSoundAfter, changed-IsGood, insert_transaction-IsSound,
}

module _ ⦃d : Decimal⦄ where
  insert_entry-IsSound :
      (txn : ℕ) (leg : LedgerLeg) (t t' : Tables)
      → insert_entry txn leg t ≡ ok t'
      → txn ≤ length t.transactions
      → IsSound t
      → IsSoundAfter t t'
  insert_entry-IsSound txn leg t t' h le s =
      let all : All (λ e. e.transaction_id ≤ length t.transactions) (entered txn leg t) =
        ground (arith, s.recorded) in
      subst (IsSoundAfter t) (sym (insert_entry_ok txn leg t t' h))
        (record { good = s.good; recorded = all }, refl)

  apply_legs-IsSound :
      (txn : ℕ) (legs : List LedgerLeg) (t t' : Tables)
      → apply_legs txn legs t ≡ ok t'
      → txn ≤ length t.transactions
      → IsSound t
      → IsSound t'
  unfolding apply_legs apply_trade_leg
  apply_legs-IsSound txn [] t t' h le s = subst IsSound (ground arith) s
  apply_legs-IsSound txn (leg ∷ legs) t t' h le s =
      let (t2, p, q) = bind_ok (apply_trade_leg txn leg t) _ h in
      let (t1, e, k) = bind_ok (insert_entry txn leg t) _ p in
      let (rows, r, m) = applied_ok _ _ t1 t2 k in
      let (s1, n) = insert_entry-IsSound txn leg t t1 e le s in
      let s2 : IsSound (record t1 { balances = rows }) = record {
        good =
            changed-IsGood t1.assets t1.users leg.user_id leg.asset _ (credit leg.amount)
              t1.balances rows (λ x. (refl, refl))
              (update_row-IsChanged leg.user_id leg.asset _ (credit leg.amount) t1.balances rows r)
              s1.good;
        recorded = s1.recorded;
      } in
      apply_legs-IsSound txn legs t2 t' q
        (subst (λ x. txn ≤ length x.transactions) (sym m) (subst (λ x. txn ≤ x) (sym n) le))
        (subst IsSound (sym m) s2)

  release_all-IsSound :
      (frs : List FreezeRelease) (t t' : Tables)
      → release_all frs t ≡ ok t'
      → IsSound t
      → IsSound t'
  unfolding release_all release_frozen
  release_all-IsSound [] t t' h s = subst IsSound (ground arith) s
  release_all-IsSound (fr ∷ frs) t t' h s =
      let (t1, p, q) = bind_ok (release_frozen fr t) _ h in
      let (rows, r, m) = applied_ok _ _ t t1 p in
      let s1 : IsSound (record t { balances = rows }) = record {
        good =
            changed-IsGood t.assets t.users fr.user_id fr.asset _ (consume fr.amount) t.balances
              rows (λ x. (refl, refl))
              (update_row-IsChanged fr.user_id fr.asset _ (consume fr.amount) t.balances rows r)
              s.good;
        recorded = s.recorded;
      } in
      release_all-IsSound frs t1 t' q (subst IsSound (sym m) s1)

  pub settle_trade-IsSound :
      (ref_id : String) (legs : List LedgerLeg) (release : List FreezeRelease) (t t' : Tables)
      → settle_trade ref_id legs release t ≡ ok t'
      → IsSound t
      → IsSound t'
  unfolding settle_trade verify_ledger_balance
  settle_trade-IsSound ref_id legs release t t' h s =
      elim (Bool-cases (has_reference "trade" ref_id t.transactions)) [
        | inl e ↦ subst IsSound (ground arith) s
        | inr e ↦
            let (t1, p, q) =
              bind_ok (insert_transaction "trade" ref_id t) _ (rw (e, settle_trade) at h) in
            let (t2, r, k) = bind_ok (apply_legs (last_id t1) legs t1) _ q in
            let (t3, u, v) = bind_ok (release_all release t2) _ k in
            let s1 = insert_transaction-IsSound "trade" ref_id t t1 p s in
            let s3 =
              release_all-IsSound release t2 t3 u
                (apply_legs-IsSound (last_id t1) legs t1 t2 r (omega arith) s1) in
            subst IsSound (ground arith) s3
      ]

  All-has_asset : (assets : List String) → All (λ a. has_asset a assets ≡ true) assets
  All-has_asset [] = tt
  All-has_asset (a ∷ rest) =
      (ground (arith, eq_refl a), All-map (λ b h. ground (arith, h)) rest (All-has_asset rest))

  empty_rows-IsGood :
      (assets : List String) (users : List User) (u : String) (rest : List String)
      → has_user u users ≡ true
      → All (λ a. has_asset a assets ≡ true) rest
      → All (IsGood assets users) (empty_rows u rest)
  unfolding empty_rows
  empty_rows-IsGood assets users u [] h k = tt
  empty_rows-IsGood assets users u (a ∷ rest) h k =
      ((ground (arith, cmp_refl nil), k.0, h), empty_rows-IsGood assets users u rest h k.1)

  pub create_user-IsSound :
      (new_id username : String) (t t' : Tables)
      → create_user new_id username t ≡ ok t'
      → IsSound t
      → IsSound t'
  unfolding create_user
  create_user-IsSound new_id username t t' h s = elim (Bool-cases (has_username username t.users)) [
    | inl e ↦ absurd (ground arith)
    | inr e ↦
        let users = record { id = new_id; username = username } ∷ t.users in
        let made : IsSound
            (record t { users = users; balances = t.balances ++ empty_rows new_id t.assets }) =
          record {
            good =
                All-append (IsGood t.assets users) t.balances (empty_rows new_id t.assets)
                  (All-map (λ r g. (g.0, g.1, ground (arith, g.2))) t.balances s.good)
                  (empty_rows-IsGood t.assets users new_id t.assets (ground (arith, eq_refl new_id))
                    (All-has_asset t.assets));
            recorded = s.recorded;
          } in
        subst IsSound (ground arith) made
  ]
