-- ===== src/Perps/Engine.antt =====
-- packages/perpservice/engine.go: calls that read and write the perpetual tables and ask
-- account-service for freezes and settlements. An error leaves what was written before it. The
-- uuids that a call draws are its arguments.
use crypto_exchange_lab.Prelude.{
  ℕ, Bool, true, false, String, List, Option, none, some, if◌then◌else◌, ◌==◌, ◌||◌, ltb,
}
use crypto_exchange_lab.Decimal.{Decimal, Amount, nil, ◌⊕◌, less_or_equal}
use crypto_exchange_lab.Exchange.{PositionSide}
use crypto_exchange_lab.Errors.{Code, Failure, Result, ok, err, fails, broken}
use crypto_exchange_lab.Stateful.{Stateful, ◌>>=◌, ask, found}
use crypto_exchange_lab.Account.Store.{Tables}
use crypto_exchange_lab.Perps.Math.{notional, initial_margin, weighted_entry_price}
use crypto_exchange_lab.Perps.Store.{
  Market, Position, PerpTables, get_market, get_mark_price, get_position, upsert_position,
  insert_event,
}
use crypto_exchange_lab.Perps.Client.{send_freeze, send_unfreeze}

pub record OpenRequest : Type 0 where
  pub user_id : String
  pub symbol : String
  pub side : PositionSide
  pub size : String
  pub leverage : ℕ

pub record CloseRequest : Type 0 where
  pub user_id : String
  pub symbol : String
  pub size : String

abbrev pub ref_type_perp_margin : String
ref_type_perp_margin = "perp_margin"

abbrev pub same_side : PositionSide → PositionSide → Bool
same_side PositionSide.long PositionSide.long = true
same_side PositionSide.short PositionSide.short = true
same_side (PositionSide.other s) (PositionSide.other t) = s == t
same_side _ _ = false

module _ ⦃d : Decimal⦄ where
  -- The state of both services.
  pub record World : Type 0 where
    pub account : Tables
    pub perp : PerpTables

  abbrev pub Action {ℓ} : Type ℓ → Type ℓ
  Action A = Stateful World A

  -- A request to account-service.
  abbrev pub answered : World → Result Tables → Result {0} Unit × World
  answered w (ok t) = (ok tt, record w { account = t })
  answered w (err f) = (err f, w)

  abbrev pub on_account : (Tables → Result Tables) → Action {0} Unit
  on_account request w = answered w (request w.account)

  abbrev pub on_perp : (PerpTables → PerpTables) → Action {0} Unit
  on_perp f w = (ok tt, record w { perp = f w.perp })

  -- `UpsertPosition`, and the state that its error leaves.
  abbrev pub stored : World → World → Option (List Position) → Result {0} Unit × World
  stored w failed none = (broken, failed)
  stored w failed (some ps) = (ok tt, record w { perp = record w.perp { positions = ps } })

  abbrev pub save_position : Position → Action {0} Unit
  save_position p w = stored w w (upsert_position p w.perp.positions)

  abbrev pub invalid : String → Failure
  invalid message = Failure.app (record { code = Code.invalid_argument; message = message })

  -- A size that is read must be positive.
  unfoldable pub parse_size : String → Result Amount
  parse_size s = elim (d.of_text s) [
    | none ↦ err (invalid "invalid size")
    | some x ↦ if less_or_equal x nil then err (invalid "invalid size") else ok x
  ]

  -- The number at the end of the message is left out.
  abbrev pub check_leverage : ℕ → Market → Result {0} Unit
  check_leverage leverage mkt =
      if ltb leverage 1 || ltb mkt.max_leverage leverage
      then err (invalid "leverage must be 1-")
      else ok tt

  -- The position that a request adds to, if there is one: it must be on the same side.
  abbrev pub existing_for : OpenRequest → Option Position → Result (Option Position)
  existing_for req none = ok none
  existing_for req (some p) =
      if same_side p.side req.side
      then ok (some p)
      else fails Code.conflict "close existing position before flipping side"

  -- The position after `Open`.
  unfoldable pub opened :
      OpenRequest → String → Amount → Amount → Amount → Option Position → Position
  opened req pos_id size mark add_margin none = record {
    id = pos_id;
    user_id = req.user_id;
    symbol = req.symbol;
    side = req.side;
    size = size;
    entry_price = mark;
    leverage = req.leverage;
    margin = add_margin;
  }
  opened req pos_id size mark add_margin (some p) = record {
    id = p.id;
    user_id = req.user_id;
    symbol = req.symbol;
    side = p.side;
    size = p.size ⊕ size;
    entry_price = weighted_entry_price p.size p.entry_price size mark;
    leverage = req.leverage;
    margin = p.margin ⊕ add_margin;
  }

  -- An error of the table gives the new margin back, and a failure of that is ignored.
  unfoldable pub save_or_undo : Position → (Tables → Result Tables) → Action {0} Unit
  save_or_undo p undo w = stored w (on_account undo w).1 (upsert_position p w.perp.positions)

  -- `Open`; the uuids are that of a new position and that of the freeze.
  unfoldable pub open_position : OpenRequest → String → String → Action Position
  open_position req pos_id freeze_ref = do
    mkt ← ask (λ w. found (invalid "unknown market") (get_market req.symbol w.perp.markets))
    _ ← ask (λ w. check_leverage req.leverage mkt)
    size ← ask (λ w. parse_size req.size)
    mark ← ask (λ w.
        found (invalid "mark price not ready; wait for matching feed")
          (get_mark_price req.symbol w.perp.marks))
    let add_margin = initial_margin (notional size mark) req.leverage
    existing ← ask (λ w. existing_for req (get_position req.user_id req.symbol w.perp.positions))
    _ ← on_account (
        send_freeze ref_type_perp_margin req.user_id mkt.quote_asset (d.text add_margin) freeze_ref)
    let p = opened req pos_id size mark add_margin existing
    _ ← save_or_undo p (
        send_unfreeze ref_type_perp_margin req.user_id mkt.quote_asset (d.text add_margin)
          freeze_ref)
    _ ← on_perp (
        insert_event (record {
          user_id = req.user_id;
          symbol = req.symbol;
          event_type = "OPEN";
          size = size;
          price = mark;
          leverage = some req.leverage;
          pnl = none;
          ref_id = p.id;
        }))
    ask (λ w. ok p)
