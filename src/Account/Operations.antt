-- ===== src/Account/Operations.antt =====
-- internal/store/balances.go and users.go. Each call is one transaction of the database: the new
-- tables are committed, and an error rolls everything back, so the caller keeps the tables it had.
use crypto_exchange_lab.Prelude.{
  ℕ, Bool, true, false, String, List, [], ◌∷◌, ◌++◌, if◌then◌else◌, ◌==◌, ◌||◌, Ordering,
}
use Prim.Native.String.{compare as compare_text}
use crypto_exchange_lab.Sort.{sort_slice}
use crypto_exchange_lab.Decimal.{Decimal, Amount, nil, ◌⊕◌, ◌⊖◌, greater_or_equal, less_or_equal}
use crypto_exchange_lab.Errors.{Result, ok, fails, broken, ◌>>=◌, Code}
use crypto_exchange_lab.Account.Store.{
  User, Balance, LedgerLeg, FreezeRelease, Tables, has_reference, Update, no_rows, refused, updated,
  update_row,
}
use crypto_exchange_lab.Account.Ledger.{
  insert_transaction, insert_entry, insert_freeze_ledger, insert_unfreeze_ledger,
  verify_ledger_balance, last_id,
}

module _ ⦃d : Decimal⦄ where
  -- An UPDATE that finds no row is reported as the caller wants it.
  abbrev pub applied : Update → Result Tables → Tables → Result Tables
  applied no_rows missing t = missing
  applied refused missing t = broken
  applied (updated rows) missing t = ok (record t { balances = rows })

  abbrev pub lock : Amount → Balance → Balance
  lock x r = record r { available = r.available ⊖ x; frozen = r.frozen ⊕ x }

  abbrev pub unlock : Amount → Balance → Balance
  unlock x r = record r { available = r.available ⊕ x; frozen = r.frozen ⊖ x }

  abbrev pub credit : Amount → Balance → Balance
  credit x r = record r { available = r.available ⊕ x }

  abbrev pub consume : Amount → Balance → Balance
  consume x r = record r { frozen = r.frozen ⊖ x }

  -- The UPDATE of `Freeze`.
  abbrev pub lock_row : String → String → Amount → Tables → Result Tables
  lock_row user_id asset amount t =
      applied
        (update_row user_id asset (λ b. greater_or_equal b.available amount) (lock amount)
          t.balances)
        (fails Code.insufficient "insufficient available balance") t

  -- `Freeze`.
  unfoldable pub freeze : String → String → Amount → String → String → Tables → Result Tables
  freeze user_id asset amount ref_type ref_id t =
      if less_or_equal amount nil
      then fails Code.invalid_argument "freeze amount must be positive"
      else (lock_row user_id asset amount t
          >>= insert_freeze_ledger user_id asset amount ref_type ref_id)

  -- The UPDATE of `Unfreeze`.
  abbrev pub unlock_row : String → String → Amount → Tables → Result Tables
  unlock_row user_id asset amount t =
      applied
        (update_row user_id asset (λ b. greater_or_equal b.frozen amount) (unlock amount)
          t.balances)
        (fails Code.insufficient "insufficient frozen balance") t

  -- `Unfreeze`.
  unfoldable pub unfreeze : String → String → Amount → String → String → Tables → Result Tables
  unfreeze user_id asset amount ref_type ref_id t =
      if less_or_equal amount nil
      then fails Code.invalid_argument "unfreeze amount must be positive"
      else (unlock_row user_id asset amount t
          >>= insert_unfreeze_ledger user_id asset amount ref_type ref_id)

  -- `applyTradeLeg`.
  unfoldable pub apply_trade_leg : ℕ → LedgerLeg → Tables → Result Tables
  apply_trade_leg txn leg t = do
    t1 ← insert_entry txn leg t
    applied (update_row leg.user_id leg.asset (λ b. true) (credit leg.amount) t1.balances) broken t1

  unfoldable pub apply_legs : ℕ → List LedgerLeg → Tables → Result Tables
  unfolding apply_trade_leg
  apply_legs txn [] t = ok t
  apply_legs txn (leg ∷ legs) t = apply_trade_leg txn leg t >>= apply_legs txn legs

  -- One round of the second loop of `SettleTrade`.
  unfoldable pub release_frozen : FreezeRelease → Tables → Result Tables
  release_frozen fr t =
      applied
        (update_row fr.user_id fr.asset (λ b. greater_or_equal b.frozen fr.amount)
          (consume fr.amount) t.balances)
        (fails Code.insufficient "insufficient frozen for settlement") t

  unfoldable pub release_all : List FreezeRelease → Tables → Result Tables
  unfolding release_frozen
  release_all [] t = ok t
  release_all (fr ∷ frs) t = release_frozen fr t >>= release_all frs

  -- `SettleTrade`: a reference that is already in the ledger is settled.
  unfoldable pub settle_trade :
      String → List LedgerLeg → List FreezeRelease → Tables → Result Tables
  settle_trade ref_id legs release t =
      if has_reference "trade" ref_id t.transactions then ok t else (do
        t1 ← insert_transaction "trade" ref_id t
        t2 ← apply_legs (last_id t1) legs t1
        t3 ← release_all release t2
        verify_ledger_balance (last_id t1) t3)

  unfoldable pub rows_of : String → List Balance → List Balance
  rows_of u [] = []
  rows_of u (r ∷ rs) = let rest = rows_of u rs in if r.user_id == u then r ∷ rest else rest

  abbrev pub by_asset : Balance → Balance → Bool
  by_asset x y = elim (compare_text x.asset y.asset) [ Ordering.lt ↦ true | _ ↦ false ]

  -- `GetBalances`: the user's rows, ordered by asset.
  unfoldable pub get_balances : String → Tables → List Balance
  unfolding rows_of sort_slice
  get_balances u t = sort_slice by_asset (rows_of u t.balances)

  abbrev pub by_username : User → User → Bool
  by_username x y = elim (compare_text x.username y.username) [ Ordering.lt ↦ true | _ ↦ false ]

  -- `ListUsers`: all users, ordered by name.
  unfoldable pub list_users : Tables → List User
  unfolding sort_slice
  list_users t = sort_slice by_username t.users

  -- `GetUserByID`.
  unfoldable pub get_user_by_id : String → List User → Result User
  get_user_by_id i [] = fails Code.not_found "user not found"
  get_user_by_id i (u ∷ us) = if u.id == i then ok u else get_user_by_id i us

  abbrev pub has_username : String → List User → Bool
  has_username n [] = false
  has_username n (u ∷ us) = u.username == n || has_username n us

  -- A row of zeros for each asset.
  unfoldable pub empty_rows : String → List String → List Balance
  empty_rows u [] = []
  empty_rows u (a ∷ rest) =
      record { user_id = u; asset = a; available = nil; frozen = nil } ∷ empty_rows u rest

  -- `CreateUser`; the database chooses the new id.
  unfoldable pub create_user : String → String → Tables → Result Tables
  unfolding empty_rows
  create_user new_id username t =
      if has_username username t.users
      then broken
      else ok (record t {
        users = record { id = new_id; username = username } ∷ t.users;
        balances = t.balances ++ empty_rows new_id t.assets;
      })
