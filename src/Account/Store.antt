-- ===== src/Account/Store.antt =====
-- The tables of account-service, as infra/postgres/migrations declares them, and the statements
-- that internal/store sends: each is a function on the tables. Names of users and assets stand for
-- their keys. A row's key is unique, so an UPDATE changes the one row that it finds. Values are not
-- rounded to the columns' NUMERIC(36, 18), and the connection does not fail.
use crypto_exchange_lab.Prelude.{
  ℕ, Bool, false, String, List, [], ◌∷◌, if◌then◌else◌, ◌==◌, ◌&&◌, ◌||◌, not,
}
use crypto_exchange_lab.Decimal.{Decimal, Amount, nil, less}

module _ ⦃d : Decimal⦄ where
  -- models.go, with the user's row of `balances`.
  pub record User : Type 0 where
    pub id : String
    pub username : String

  pub record Balance : Type 0 where
    pub user_id : String
    pub asset : String
    pub available : Amount
    pub frozen : Amount

  pub record LedgerLeg : Type 0 where
    pub user_id : String
    pub asset : String
    pub amount : Amount

  pub record FreezeRelease : Type 0 where
    pub user_id : String
    pub asset : String
    pub amount : Amount

  pub record LedgerTransaction : Type 0 where
    pub ref_type : String
    pub ref_id : String

  pub record LedgerEntry : Type 0 where
    pub transaction_id : ℕ
    pub leg : LedgerLeg

  -- A transaction's id is its place in the table.
  pub record Tables : Type 0 where
    pub assets : List String
    pub users : List User
    pub balances : List Balance
    pub transactions : List LedgerTransaction
    pub entries : List LedgerEntry

  abbrev pub has_asset : String → List String → Bool
  has_asset a [] = false
  has_asset a (b ∷ bs) = b == a || has_asset a bs

  abbrev pub has_user : String → List User → Bool
  has_user u [] = false
  has_user u (v ∷ vs) = v.id == u || has_user u vs

  abbrev pub has_reference : String → String → List LedgerTransaction → Bool
  has_reference t i [] = false
  has_reference t i (x ∷ xs) = (x.ref_type == t && x.ref_id == i) || has_reference t i xs

  abbrev pub is_row : String → String → Balance → Bool
  is_row u a r = r.user_id == u && r.asset == a

  -- The CHECK constraints of `balances`.
  abbrev pub is_allowed : Balance → Bool
  is_allowed r = not (less r.available nil) && not (less r.frozen nil)

  -- `UPDATE balances … WHERE … AND test`.
  pub data Update : Type 0 where
    no_rows : Update
    refused : Update
    updated : List Balance → Update

  abbrev pub behind : Balance → Update → Update
  behind r no_rows = no_rows
  behind r refused = refused
  behind r (updated rs) = updated (r ∷ rs)

  unfoldable pub update_row :
      String → String → (Balance → Bool) → (Balance → Balance) → List Balance → Update
  update_row u a test change [] = no_rows
  update_row u a test change (r ∷ rs) =
      if is_row u a r
      then (if test r
          then (if is_allowed (change r) then updated (change r ∷ rs) else refused)
          else no_rows)
      else behind r (update_row u a test change rs)
