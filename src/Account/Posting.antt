-- ===== src/Account/Posting.antt =====
-- What a successful leg, release or ledger entry of a settlement did to the tables.
use crypto_exchange_lab.Prelude.{
  ℕ, ◌≡◌, refl, sym, ap, subst, ◌∙◌, true, List, ◌∷◌, if◌then◌else◌, arith,
}
use crypto_exchange_lab.Decimal.{Decimal, greater_or_equal}
use crypto_exchange_lab.Errors.{ok, err, Failure, bind_ok}
use crypto_exchange_lab.Account.Store.{
  Balance, LedgerLeg, FreezeRelease, Tables, LedgerEntry, has_asset, Update, no_rows, refused,
  updated,
}
use crypto_exchange_lab.Account.Ledger.{insert_entry}
use crypto_exchange_lab.Account.Operations.{
  applied, credit, consume, apply_trade_leg, release_frozen,
}
use crypto_exchange_lab.Account.Rows.{IsChanged, update_row-IsChanged}

module _ ⦃d : Decimal⦄ where
  -- The tables that a balance update or a ledger entry never touches.
  pub record IsKept (t t' : Tables) : Type 0 where
    pub same_assets : t'.assets ≡ t.assets
    pub same_users : t'.users ≡ t.users
    pub same_transactions : t'.transactions ≡ t.transactions

  pub IsKept-trans : (t u v : Tables) → IsKept t u → IsKept u v → IsKept t v
  IsKept-trans t u v h k = record {
    same_assets = k.same_assets ∙ h.same_assets;
    same_users = k.same_users ∙ h.same_users;
    same_transactions = k.same_transactions ∙ h.same_transactions;
  }

  pub applied_ok :
      (u : Update) (f : Failure) (t t' : Tables)
      → applied u (err f) t ≡ ok t'
      → (rows : List Balance) × (u ≡ updated rows) × (t' ≡ record t { balances = rows })
  applied_ok no_rows f t t' h = absurd (ground arith)
  applied_ok refused f t t' h = absurd (ground arith)
  applied_ok (updated rows) f t t' h = (rows, refl, ground arith)

  -- A known asset's leg is entered in the ledger; balances stay.
  abbrev pub entered : ℕ → LedgerLeg → Tables → List LedgerEntry
  entered txn leg t =
      if has_asset leg.asset t.assets
      then record { transaction_id = txn; leg = leg } ∷ t.entries
      else t.entries

  pub insert_entry_ok :
      (txn : ℕ) (leg : LedgerLeg) (t t' : Tables)
      → insert_entry txn leg t ≡ ok t'
      → t' ≡ record t { entries = entered txn leg t }
  unfolding insert_entry
  insert_entry_ok txn leg t t' h = ground arith

  pub record IsPosted (txn : ℕ) (leg : LedgerLeg) (t t' : Tables) : Type 0 where
    pub kept : IsKept t t'
    pub moved :
        IsChanged leg.user_id leg.asset (λ b. true) (credit leg.amount) t.balances t'.balances
    pub noted : t'.entries ≡ entered txn leg t

  pub apply_trade_leg-IsPosted :
      (txn : ℕ) (leg : LedgerLeg) (t t' : Tables)
      → apply_trade_leg txn leg t ≡ ok t'
      → IsPosted txn leg t t'
  unfolding apply_trade_leg
  apply_trade_leg-IsPosted txn leg t t' h =
      let (t1, e, k) = bind_ok (insert_entry txn leg t) _ h in
      let (rows, q, p) = applied_ok _ _ t1 t' k in
      let s = insert_entry_ok txn leg t t1 e in
      record {
        kept = record {
          same_assets = ap (λ x. x.assets) p ∙ ap (λ x. x.assets) s;
          same_users = ap (λ x. x.users) p ∙ ap (λ x. x.users) s;
          same_transactions = ap (λ x. x.transactions) p ∙ ap (λ x. x.transactions) s;
        };
        moved =
            subst
              (λ b. IsChanged leg.user_id leg.asset (λ r. true) (credit leg.amount) b t'.balances)
              (ap (λ x. x.balances) s)
              (subst (IsChanged leg.user_id leg.asset (λ r. true) (credit leg.amount) t1.balances)
                (sym (ap (λ x. x.balances) p))
                (update_row-IsChanged leg.user_id leg.asset (λ r. true) (credit leg.amount)
                  t1.balances rows q));
        noted = ap (λ x. x.entries) p ∙ ap (λ x. x.entries) s;
      }

  pub record IsReleased (fr : FreezeRelease) (t t' : Tables) : Type 0 where
    pub kept : IsKept t t'
    pub moved :
        IsChanged fr.user_id fr.asset
          (λ b. greater_or_equal b.frozen fr.amount)
          (consume fr.amount)
          t.balances
          t'.balances
    pub noted : t'.entries ≡ t.entries

  pub release_frozen-IsReleased :
      (fr : FreezeRelease) (t t' : Tables) → release_frozen fr t ≡ ok t' → IsReleased fr t t'
  unfolding release_frozen
  release_frozen-IsReleased fr t t' h =
      let (rows, q, p) = applied_ok _ _ t t' h in
      record {
        kept = record {
          same_assets = ap (λ x. x.assets) p;
          same_users = ap (λ x. x.users) p;
          same_transactions = ap (λ x. x.transactions) p;
        };
        moved =
            subst
              (IsChanged fr.user_id fr.asset (λ b. greater_or_equal b.frozen fr.amount)
                (consume fr.amount) t.balances)
              (sym (ap (λ x. x.balances) p))
              (update_row-IsChanged fr.user_id fr.asset _ (consume fr.amount) t.balances rows q);
        noted = ap (λ x. x.entries) p;
      }
