-- ===== src/Lab/Running.antt =====
-- What the services keep, whatever happens to them and in whatever order.
use crypto_exchange_lab.Prelude.{ℕ, String, Bool-cases, inl, inr}
use crypto_exchange_lab.Decimal.{Decimal, Amount}
use crypto_exchange_lab.Exchange.{Side}
use crypto_exchange_lab.Account.Store.{Tables}
use crypto_exchange_lab.Account.Soundness.{IsSound}
use crypto_exchange_lab.Account.Serving.{serve-IsSound}
use crypto_exchange_lab.Hub.Books.{default_spot_symbols}
use crypto_exchange_lab.Hub.Seed.{enabled}
use crypto_exchange_lab.Hub.Quoted.{AllValid, new_hub-AllValid, liquidity-AllValid}
use crypto_exchange_lab.Hub.Serving.{handle-IsFine}
use crypto_exchange_lab.Orders.Store.{OrderTables}
use crypto_exchange_lab.Orders.Rows.{AreRows}
use crypto_exchange_lab.Orders.Flow.{Desk}
use crypto_exchange_lab.Orders.Keeping.{IsFine}
use crypto_exchange_lab.Orders.Serving.{serve-IsFine}
use crypto_exchange_lab.Perps.Store.{PerpTables}
use crypto_exchange_lab.Perps.Positions.{AreValid}
use crypto_exchange_lab.Perps.Engine.{World}
use crypto_exchange_lab.Perps.Serving.{IsInOrder, serve-IsInOrder}
use crypto_exchange_lab.Perps.Rounds.{tick}
use crypto_exchange_lab.Perps.Funded.{run_settler-IsInOrder}
use crypto_exchange_lab.Lab.Services.{
  Lab, Event, to_account, to_matching, to_order_service, to_orderbook_dex, to_perps, scanning,
  asking_rate, settling, marking, start_hub, start_server, order_service, orderbook_dex, desk_of,
  with_desk, world_of, with_world, handle_settle, step,
}
use crypto_exchange_lab.Lab.Scanned.{run_scanner-IsInOrder}

module _ ⦃d : Decimal⦄ where
  -- The accounts are sound, the books valid, the order rows within their constraints and the
  -- positions valid.
  pub record IsAllRight (l : Lab) : Type 0 where
    pub accounts : IsSound l.account
    pub books : AllValid l.server.hub.books
    pub rows : AreRows l.orders.orders
    pub positions : AreValid l.perp.positions

  with_desk-IsAllRight : (w : Desk) (l : Lab) → IsFine w → IsAllRight l → IsAllRight (with_desk w l)
  with_desk-IsAllRight w l f s = record {
    accounts = f.accounts;
    books = f.books;
    rows = f.rows;
    positions = s.positions;
  }

  with_world-IsAllRight :
      (w : World) (l : Lab) → IsInOrder w → IsAllRight l → IsAllRight (with_world w l)
  with_world-IsAllRight w l f s = record {
    accounts = f.accounts;
    books = s.books;
    rows = s.rows;
    positions = f.positions;
  }

  desk_of-IsFine : (l : Lab) → IsAllRight l → IsFine (desk_of l)
  desk_of-IsFine l s = record { accounts = s.accounts; books = s.books; rows = s.rows }

  world_of-IsInOrder : (l : Lab) → IsAllRight l → IsInOrder (world_of l)
  world_of-IsInOrder l s = record { accounts = s.accounts; positions = s.positions }

  pub step-IsAllRight :
      (rate : Amount) (e : Event) (l : Lab) → IsAllRight l → IsAllRight (step rate e l)
  unfolding step handle_settle tick
  step-IsAllRight rate (to_account r) l s = record {
    accounts = serve-IsSound r l.account s.accounts;
    books = s.books;
    rows = s.rows;
    positions = s.positions;
  }
  step-IsAllRight rate (to_matching times r) l s = record {
    accounts = s.accounts;
    books = handle-IsFine times r l.server s.books;
    rows = s.rows;
    positions = s.positions;
  }
  step-IsAllRight rate (to_order_service draws r) l s =
      with_desk-IsAllRight _ l (serve-IsFine order_service draws r (desk_of l) (desk_of-IsFine l s))
        s
  step-IsAllRight rate (to_orderbook_dex draws r) l s =
      with_desk-IsAllRight _ l (serve-IsFine orderbook_dex draws r (desk_of l) (desk_of-IsFine l s))
        s
  step-IsAllRight rate (to_perps draws r) l s =
      with_world-IsAllRight _ l (serve-IsInOrder draws r (world_of l) (world_of-IsInOrder l s)) s
  step-IsAllRight rate (scanning ids) l s =
      with_world-IsAllRight _ l (run_scanner-IsInOrder ids (world_of l) (world_of-IsInOrder l s)) s
  step-IsAllRight rate (asking_rate symbol) l s = s
  step-IsAllRight rate (settling ids) l s =
      with_world-IsAllRight _ l
        (run_settler-IsInOrder rate ids (world_of l) (world_of-IsInOrder l s)) s
  step-IsAllRight rate marking l s = record {
    accounts = s.accounts;
    books = s.books;
    rows = s.rows;
    positions = s.positions;
  }

  start_hub-AllValid :
      (seed : String) (clock : ℕ → ℕ) (ids : Side → String) (now : ℕ)
      → AllValid (start_hub seed clock ids now).books
  unfolding start_hub
  start_hub-AllValid seed clock ids now = elim (Bool-cases (enabled seed)) [
    | inl e ↦ rw e (liquidity-AllValid clock ids now default_spot_symbols)
    | inr e ↦ rw e (new_hub-AllValid default_spot_symbols)
  ]

  -- The services on tables that are sound, and with the matching engine at its start.
  abbrev pub launch :
      Tables → OrderTables → PerpTables → String → (ℕ → ℕ) → (Side → String) → ℕ → Lab
  launch account orders perp seed clock ids now = record {
    account = account;
    server = start_server seed clock ids now;
    orders = orders;
    perp = perp;
  }

  -- Started on sound accounts, order rows within their constraints and valid positions, the services
  -- are in order.
  pub launch-IsAllRight :
      (account : Tables) (orders : OrderTables) (perp : PerpTables) (seed : String) (clock : ℕ → ℕ)
      (ids : Side → String) (now : ℕ)
      → IsSound account
      → AreRows orders.orders
      → AreValid perp.positions
      → IsAllRight (launch account orders perp seed clock ids now)
  launch-IsAllRight account orders perp seed clock ids now sound rows positions = record {
    accounts = sound;
    books = start_hub-AllValid seed clock ids now;
    rows = rows;
    positions = positions;
  }
