-- ===== src/Orders/RefusedTests.antt =====
-- An order for a symbol that is in the order tables and has no book.
use crypto_exchange_lab.Prelude.{◌≡◌, refl, [], ◌∷◌, some}
use crypto_exchange_lab.Prelude.Int.{pos, negsuc, ◌+ℤ◌, ◌-ℤ◌, ◌*ℤ◌}
use crypto_exchange_lab.Decimal.Whole.{whole, negate, of_text, text}
use crypto_exchange_lab.Exchange.{Side, OrderType, Venue, valid_venue}
use crypto_exchange_lab.Errors.{Failure, Code, ok, fails, reported}
use crypto_exchange_lab.Account.Store.{Tables, update_row}
use crypto_exchange_lab.Account.Ledger.{insert_freeze_ledger}
use crypto_exchange_lab.Account.Operations.{freeze}
use crypto_exchange_lab.Account.Soundness.{IsSound}
use crypto_exchange_lab.Account.Handler.{parse, serve}
use crypto_exchange_lab.Perps.Client.{send_freeze}
use crypto_exchange_lab.Hub.Books.{new_hub}
use crypto_exchange_lab.Hub.Handler.{submit_order}
use crypto_exchange_lab.Orders.Store.{Symbol, get_symbol, create_order}
use crypto_exchange_lab.Orders.Settle.{collateral_for_order}
use crypto_exchange_lab.Orders.Flow.{
  Engine, Draws, Desk, PlaceOrderRequest, order_price, new_order, submit_req, submit, place_order,
}
use crypto_exchange_lab.Orders.Refused.{place_order_refused}

abbrev solana : Symbol
solana = record { name = "SOL/USDT"; base_asset = "SOL"; quote_asset = "USDT" }

abbrev dex : Engine
dex = record { venue = Venue.dex; ref_type = "dex_order" }

abbrev draws : Draws
draws = record {
  order_id = "o1";
  trade_id = λ n. "m";
  row_id = λ n. "r";
  times = record { now = 5; clock = λ n. n; rfc3339 = λ n. "t"; rfc3339_nano = λ n. "t" };
}

abbrev accounts : Tables
accounts = record {
  assets = "USDT" ∷ [];
  users = record { id = "alice"; username = "Alice" } ∷ [];
  balances = record { user_id = "alice"; asset = "USDT"; available = pos 10; frozen = pos 6 } ∷ [];
  transactions = [];
  entries = [];
}

accounts-IsSound : IsSound accounts
accounts-IsSound = record { good = ((refl, refl, refl), tt); recorded = tt }

abbrev desk : Desk
desk = record {
  account = accounts;
  server = record { hub = new_hub ("BTC/USDT" ∷ []); clients = []; sent = [] };
  orders = record { symbols = solana ∷ []; orders = []; trades = [] };
}

-- Two at a price of three.
abbrev request : PlaceOrderRequest
request = record {
  user_id = "alice";
  symbol = "SOL/USDT";
  side = Side.buy;
  order_type = OrderType.limit;
  price = "111";
  quantity = "11";
}

abbrev frozen_accounts : Tables
frozen_accounts = record accounts {
  balances = record { user_id = "alice"; asset = "USDT"; available = pos 4; frozen = pos 12 } ∷ [];
  transactions = record { ref_type = "dex_order"; ref_id = "dex_order:o1:freeze" } ∷ [];
  entries =
      record {
        transaction_id = 1;
        leg = record { user_id = "alice"; asset = "USDT"; amount = pos 6 };
      }
      ∷ record {
        transaction_id = 1;
        leg = record { user_id = "alice"; asset = "USDT"; amount = negsuc 5 };
      }
      ∷ [];
}

abbrev sent_desk : Desk
sent_desk = record desk {
  account = frozen_accounts;
  orders = record desk.orders { orders = new_order dex request "o1" solana (pos 2) (pos 3) ∷ [] };
}

listed : get_symbol "SOL/USDT" (solana ∷ []) ≡ some solana
unfolding get_symbol
listed = refl

quantity_read : parse "11" ≡ ok (pos 2)
unfolding parse of_text
quantity_read = refl

price_read : order_price request ≡ ok (pos 3)
unfolding order_price of_text
price_read = refl

collateral : collateral_for_order Side.buy solana (pos 2) (pos 3) ≡ ok ("USDT", pos 6)
unfolding collateral_for_order ◌*ℤ◌
collateral = refl

frozen_run :
    send_freeze "dex_order" "alice" "USDT" (text (pos 6)) "o1" accounts ≡ ok frozen_accounts
unfolding send_freeze serve parse of_text text freeze update_row ◌-ℤ◌ ◌+ℤ◌ insert_freeze_ledger
    negate
frozen_run = refl

created :
    create_order (new_order dex request "o1" solana (pos 2) (pos 3)) []
    ≡ some (new_order dex request "o1" solana (pos 2) (pos 3) ∷ [])
unfolding create_order
created = refl

refused_run :
    submit draws.times (submit_req dex request "o1" solana (pos 2) (pos 3)) sent_desk
    ≡ (fails Code.invalid_argument "", sent_desk)
unfolding submit submit_order valid_venue new_hub reported
refused_run = refl

place_order_refused_example :
    ((place_order dex draws request desk).0 ≡ fails Code.invalid_argument "")
    × ((place_order dex draws request desk).1.account.balances ≡ accounts.balances)
place_order_refused_example =
    place_order_refused dex draws request desk solana (pos 2) (pos 3) (pos 6) "USDT" frozen_accounts
      (new_order dex request "o1" solana (pos 2) (pos 3) ∷ [])
      (Failure.app (record { code = Code.invalid_argument; message = "" })) sent_desk listed
      quantity_read price_read collateral frozen_run created refused_run accounts-IsSound refl
