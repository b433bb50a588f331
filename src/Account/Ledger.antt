-- ===== src/Account/Ledger.antt =====
-- internal/store/ledger.go, and the statements on the ledger in balances.go.
use crypto_exchange_lab.Prelude.{
  ℕ, Bool, true, String, List, [], ◌∷◌, if◌then◌else◌, ◌==◌, nat_eqb, length, ◌&&◌,
}
use Prim.Native.String.{◌++◌}
use crypto_exchange_lab.Decimal.{Decimal, Amount, nil, ◌⊕◌, neg, is_zero}
use crypto_exchange_lab.Errors.{Result, ok, broken, ◌>>=◌}
use crypto_exchange_lab.Account.Store.{
  Tables, LedgerLeg, LedgerEntry, has_asset, has_user, has_reference,
}

module _ ⦃d : Decimal⦄ where
  -- `INSERT INTO ledger_transactions`: the pair of references is unique.
  unfoldable pub insert_transaction : String → String → Tables → Result Tables
  insert_transaction ref_type ref_id t =
      if has_reference ref_type ref_id t.transactions
      then broken
      else ok (record t {
        transactions = record { ref_type = ref_type; ref_id = ref_id } ∷ t.transactions;
      })

  -- `INSERT INTO ledger_entries … SELECT … FROM assets`: no row for an unknown asset, and an error
  -- for an unknown user.
  unfoldable pub insert_entry : ℕ → LedgerLeg → Tables → Result Tables
  insert_entry txn leg t =
      if has_asset leg.asset t.assets
      then (if has_user leg.user_id t.users
          then ok (record t { entries = record { transaction_id = txn; leg = leg } ∷ t.entries })
          else broken)
      else ok t

  -- The transaction that `insert_transaction` made last: one less than their number.
  abbrev pub last_id : Tables → ℕ
  last_id t = length t.transactions

  -- One leg of `insertCollateralLedger`; a leg of zero is left out.
  unfoldable pub insert_collateral_leg : ℕ → String → String → Amount → Tables → Result Tables
  unfolding insert_entry
  insert_collateral_leg txn user_id asset amount t =
      if is_zero amount
      then ok t
      else insert_entry txn (record { user_id = user_id; asset = asset; amount = amount }) t

  unfoldable pub insert_collateral_ledger :
      String → String → Amount → Amount → String → String → String → Tables → Result Tables
  unfolding insert_transaction insert_collateral_leg
  insert_collateral_ledger user_id asset avail_delta frozen_delta ref_type ref_id suffix t = do
    t1 ← insert_transaction ref_type (ref_type ++ ":" ++ ref_id ++ ":" ++ suffix) t
    t2 ← insert_collateral_leg (last_id t1) user_id asset avail_delta t1
    insert_collateral_leg (last_id t1) user_id asset frozen_delta t2

  unfoldable pub insert_freeze_ledger :
      String → String → Amount → String → String → Tables → Result Tables
  unfolding insert_collateral_ledger
  insert_freeze_ledger user_id asset amount ref_type ref_id t =
      insert_collateral_ledger user_id asset (neg amount) amount ref_type ref_id "freeze" t

  unfoldable pub insert_unfreeze_ledger :
      String → String → Amount → String → String → Tables → Result Tables
  unfolding insert_collateral_ledger
  insert_unfreeze_ledger user_id asset amount ref_type ref_id t =
      insert_collateral_ledger user_id asset amount (neg amount) ref_type ref_id "unfreeze" t

  -- `SUM(e.amount)` over one asset of a transaction.
  unfoldable pub entry_sum : ℕ → String → List LedgerEntry → Amount
  entry_sum txn asset [] = nil
  entry_sum txn asset (e ∷ es) =
      if nat_eqb e.transaction_id txn && e.leg.asset == asset
      then e.leg.amount ⊕ entry_sum txn asset es
      else entry_sum txn asset es

  -- The rows of `GROUP BY a.symbol` are those of the assets that the transaction's entries name.
  unfoldable pub are_balanced : ℕ → List LedgerEntry → List LedgerEntry → Bool
  unfolding entry_sum
  are_balanced txn [] all = true
  are_balanced txn (e ∷ es) all =
      (if nat_eqb e.transaction_id txn then is_zero (entry_sum txn e.leg.asset all) else true)
      && are_balanced txn es all

  unfoldable pub verify_ledger_balance : ℕ → Tables → Result Tables
  unfolding are_balanced
  verify_ledger_balance txn t = if are_balanced txn t.entries t.entries then ok t else broken
