-- ===== src/Account/Handler.antt =====
-- services/account-service/internal/handler/handler.go, and the envelope that
-- packages/go-common/httputil/response.go writes. A request's body that is not JSON is `none`; the
-- router and the encoding of a reply are not modelled.
use crypto_exchange_lab.Prelude.{
  Bool, true, false, String, List, [], ◌∷◌, Option, none, some, if◌then◌else◌, ◌==◌, ◌||◌,
}
use crypto_exchange_lab.Decimal.{Decimal, Amount}
use crypto_exchange_lab.Errors.{Code, Result, ok, err, fails, ◌>>=◌, reported}
use crypto_exchange_lab.Account.Store.{User, Balance, LedgerLeg, FreezeRelease, Tables}
use crypto_exchange_lab.Account.Operations.{
  freeze, unfreeze, settle_trade, create_user, get_balances, list_users as all_users,
}

-- `collateralReq`, `legReq` and the body of `settleTrade`.
pub record CollateralReq : Type 0 where
  pub user_id : String
  pub asset : String
  pub amount : String
  pub ref_type : String
  pub ref_id : String

pub record LegReq : Type 0 where
  pub user_id : String
  pub asset : String
  pub amount : String

pub record SettleReq : Type 0 where
  pub trade_id : String
  pub legs : List LegReq
  pub freeze_release : List CollateralReq

-- A row of the answer of `getBalances`.
pub record BalanceRow : Type 0 where
  pub asset : String
  pub available : String
  pub frozen : String

pub data Request : Type 0 where
  list_users : Request
  create : Option String → String → Request
  show_balances : String → Request
  freezing : Option CollateralReq → Request
  unfreezing : Option CollateralReq → Request
  settling : Option SettleReq → Request

module _ ⦃d : Decimal⦄ where
  -- `httputil.OK` with its data, and `httputil.Fail`.
  pub data Reply : Type 0 where
    status : String → Reply
    created : String → String → Reply
    users : List User → Reply
    balances : String → List BalanceRow → Reply
    failed : Code → Reply

  -- The tables after a call of the store, and the reply to it: an error rolls back.
  unfoldable pub finish : Reply → Tables → Result Tables → Reply × Tables
  finish done t (ok t') = (done, t')
  finish done t (err f) = (failed (reported f), t)

  -- `money.Parse`, whose error is sent as an invalid argument.
  unfoldable pub parse : String → Result Amount
  parse s = elim (d.of_text s) [
    | some a ↦ ok a
    | none ↦ fails Code.invalid_argument "invalid decimal"
  ]

  -- What the handlers ask of the store once the amounts are read.
  unfoldable pub freeze_parsed : CollateralReq → Tables → Result Tables
  unfolding parse
  freeze_parsed body t = do
    amt ← parse body.amount
    freeze body.user_id body.asset amt body.ref_type body.ref_id t

  unfoldable pub unfreeze_parsed : CollateralReq → Tables → Result Tables
  unfolding parse
  unfreeze_parsed body t = do
    amt ← parse body.amount
    unfreeze body.user_id body.asset amt body.ref_type body.ref_id t

  unfoldable pub handle_freeze : Option CollateralReq → Tables → Reply × Tables
  unfolding finish freeze_parsed
  handle_freeze none t = (failed Code.invalid_argument, t)
  handle_freeze (some body) t = finish (status "frozen") t (freeze_parsed body t)

  unfoldable pub handle_unfreeze : Option CollateralReq → Tables → Reply × Tables
  unfolding finish unfreeze_parsed
  handle_unfreeze none t = (failed Code.invalid_argument, t)
  handle_unfreeze (some body) t = finish (status "unfrozen") t (unfreeze_parsed body t)

  unfoldable pub parse_legs : List LegReq → Result (List LedgerLeg)
  unfolding parse
  parse_legs [] = ok []
  parse_legs (l ∷ ls) = do
    amt ← parse l.amount
    rest ← parse_legs ls
    ok (record { user_id = l.user_id; asset = l.asset; amount = amt } ∷ rest)

  unfoldable pub parse_releases : List CollateralReq → Result (List FreezeRelease)
  unfolding parse
  parse_releases [] = ok []
  parse_releases (fr ∷ frs) = do
    amt ← parse fr.amount
    rest ← parse_releases frs
    ok (record { user_id = fr.user_id; asset = fr.asset; amount = amt } ∷ rest)

  abbrev pub is_empty {ℓ} : {A : Type ℓ} → List A → Bool
  is_empty [] = true
  is_empty (x ∷ xs) = false

  unfoldable pub settle_parsed : SettleReq → Tables → Result Tables
  unfolding parse_legs parse_releases
  settle_parsed body t = do
    legs ← parse_legs body.legs
    release ← parse_releases body.freeze_release
    settle_trade body.trade_id legs release t

  unfoldable pub handle_settle_trade : Option SettleReq → Tables → Reply × Tables
  unfolding finish settle_parsed
  handle_settle_trade none t = (failed Code.invalid_argument, t)
  handle_settle_trade (some body) t =
      if body.trade_id == "" || is_empty body.legs
      then (failed Code.invalid_argument, t)
      else finish (status "settled") t (settle_parsed body t)

  -- `createUser`: the id is the one that the database chooses.
  unfoldable pub handle_create_user : Option String → String → Tables → Reply × Tables
  unfolding finish
  handle_create_user none new_id t = (failed Code.invalid_argument, t)
  handle_create_user (some username) new_id t =
      if username == ""
      then (failed Code.invalid_argument, t)
      else finish (created new_id username) t (create_user new_id username t)

  unfoldable pub balance_rows : List Balance → List BalanceRow
  balance_rows [] = []
  balance_rows (b ∷ bs) =
      record { asset = b.asset; available = d.text b.available; frozen = d.text b.frozen }
      ∷ balance_rows bs

  unfoldable pub handle_get_balances : String → Tables → Reply × Tables
  unfolding balance_rows
  handle_get_balances id t = (balances id (balance_rows (get_balances id t)), t)

  -- The handler that `Register` gives each route.
  unfoldable pub serve : Request → Tables → Reply × Tables
  unfolding handle_freeze handle_unfreeze handle_settle_trade handle_create_user handle_get_balances
  serve list_users t = (users (all_users t), t)
  serve (create username new_id) t = handle_create_user username new_id t
  serve (show_balances id) t = handle_get_balances id t
  serve (freezing body) t = handle_freeze body t
  serve (unfreezing body) t = handle_unfreeze body t
  serve (settling body) t = handle_settle_trade body t
