-- ===== src/Orders/Tests.antt =====
-- A small exchange: the legs of a match, an order that is placed and one that is cancelled.
use crypto_exchange_lab.Prelude.{◌≡◌, ◌≢◌, refl, inr, String, List, [], ◌∷◌, some}
use crypto_exchange_lab.Prelude.Int.{pos, ◌+ℤ◌, ◌-ℤ◌, ◌*ℤ◌}
use crypto_exchange_lab.Decimal.{nil}
use crypto_exchange_lab.Decimal.Whole.{whole, of_text, text, negate}
use crypto_exchange_lab.Exchange.{Side, OrderType, OrderStatus, Venue, valid_venue}
use crypto_exchange_lab.Errors.{Code, ok, fails}
use crypto_exchange_lab.Account.Store.{LedgerLeg, Tables, update_row}
use crypto_exchange_lab.Account.Ledger.{insert_unfreeze_ledger}
use crypto_exchange_lab.Account.Ledger.{insert_freeze_ledger, verify_ledger_balance}
use crypto_exchange_lab.Account.Operations.{freeze, unfreeze, settle_trade, apply_legs, release_all}
use crypto_exchange_lab.Perps.Client.{send_freeze, send_settle_trade}
use crypto_exchange_lab.Orders.Flow.{order_price, record_trade, note_makers, final_status}
use crypto_exchange_lab.Orders.Store.{create_order, update_order_fill, insert_trade}
use crypto_exchange_lab.Orders.Settle.{settle_match, collateral_for_order}
use crypto_exchange_lab.Hub.Handler.{submit_order, broadcast}
use crypto_exchange_lab.Hub.Books.{set_book}
use crypto_exchange_lab.Matching.Sweep.{match_order, match_buy, rest_order}
use crypto_exchange_lab.Perps.Client.{send_unfreeze}
use crypto_exchange_lab.Stateful.{◌>>=◌, or_undo}
use crypto_exchange_lab.Account.Handler.{parse, parse_legs, serve as serve_account}
use crypto_exchange_lab.Account.Settlement.{leg_sum}
use crypto_exchange_lab.Hub.Books.{new_hub}
use crypto_exchange_lab.Orders.Store.{
  Symbol, Order, Trade, cancelled, get_order, get_symbol, cancel_order,
}
use crypto_exchange_lab.Orders.Settle.{MatchTrade, trade_legs}
use crypto_exchange_lab.Orders.Balanced.{trade_legs_balanced}
use crypto_exchange_lab.Orders.Flow.{
  Engine, Draws, Desk, PlaceOrderRequest, settle_all, place_order,
}
use crypto_exchange_lab.Orders.Told.{IsTold, place_order-IsTold}
use crypto_exchange_lab.Matching.Book.{Order as BookOrder}
use crypto_exchange_lab.Orders.Withdrawal.{cancel_open}
use crypto_exchange_lab.Orders.Returned.{cancel_open-held}
use crypto_exchange_lab.Account.Rows.{held}
use crypto_exchange_lab.Orders.Cancelling.{cancel_open_again}
use crypto_exchange_lab.Orders.Strangers.{settle_all_stranger}

abbrev bitcoin : Symbol
bitcoin = record { name = "BTC/USDT"; base_asset = "BTC"; quote_asset = "USDT" }

abbrev match : MatchTrade
match = record {
  id = "t";
  symbol = "BTC/USDT";
  buy_order_id = "b";
  sell_order_id = "s";
  buyer_user_id = "alice";
  seller_user_id = "bob";
  price = "111";
  quantity = "11";
}

trade_legs_balanced_example :
    (legs : List LedgerLeg) × (parse_legs (trade_legs bitcoin match (pos 6) (pos 2)) ≡ ok legs)
    × ((a : String) → leg_sum a legs ≡ nil)
trade_legs_balanced_example = trade_legs_balanced bitcoin match (pos 6) (pos 2)

abbrev cex : Engine
cex = record { venue = Venue.cex; ref_type = "order" }

abbrev draws : Draws
draws = record {
  order_id = "o1";
  trade_id = λ n. "m";
  row_id = λ n. "r";
  times = record { now = 5; clock = λ n. n; rfc3339 = λ n. "t"; rfc3339_nano = λ n. "t" };
}

-- Alice has an open order, for which 6 are frozen.
abbrev accounts : Tables
accounts = record {
  assets = "BTC" ∷ "USDT" ∷ [];
  users = record { id = "alice"; username = "Alice" } ∷ [];
  balances =
      record { user_id = "alice"; asset = "USDT"; available = pos 10; frozen = pos 6 }
      ∷ record { user_id = "alice"; asset = "BTC"; available = pos 0; frozen = pos 0 }
      ∷ [];
  transactions = [];
  entries = [];
}

abbrev bid : Order
bid = record {
  id = "o0";
  user_id = "alice";
  venue = Venue.cex;
  symbol = "BTC/USDT";
  side = Side.buy;
  order_type = OrderType.limit;
  status = OrderStatus.new_order;
  price = some (pos 3);
  quantity = pos 2;
  filled_qty = pos 0;
}

abbrev desk : Desk
desk = record {
  account = accounts;
  server = record { hub = new_hub ("BTC/USDT" ∷ []); clients = []; sent = [] };
  orders = record { symbols = bitcoin ∷ []; orders = bid ∷ []; trades = [] };
}

abbrev after_cancel : Desk
after_cancel = (cancel_open cex "o0" desk).1

cancel_run : cancel_open cex "o0" desk ≡ (ok (cancelled bid), after_cancel)
unfolding cancel_open ◌>>=◌ get_order get_symbol ◌*ℤ◌ ◌-ℤ◌ cancel_order send_unfreeze serve_account
    of_text text unfreeze update_row ◌+ℤ◌ insert_unfreeze_ledger
cancel_run = refl

cancel_open_again_example :
    cancel_open cex "o0" after_cancel ≡ (fails Code.conflict "order not cancellable", after_cancel)
cancel_open_again_example = cancel_open_again cex "o0" desk after_cancel (cancelled bid) cancel_run

-- Bob is no user here.
settle_all_stranger_example :
    settle_all cex draws bitcoin (match ∷ []) nil [] desk ≢ (ok (nil, []), desk)
settle_all_stranger_example =
    settle_all_stranger cex draws bitcoin match [] nil [] desk desk (nil, []) refl refl (inr refl)

-- Bob's ask of one waits in the CEX book.
abbrev bob_ask : BookOrder
bob_ask = record {
  id = "s1";
  user_id = "bob";
  side = Side.sell;
  price = pos 3;
  quantity = pos 1;
  remaining = pos 1;
  created_at = 1;
}

abbrev trading_desk : Desk
trading_desk = record {
  account = record accounts {
    users =
        record { id = "alice"; username = "Alice" } ∷ record { id = "bob"; username = "Bob" } ∷ [];
    balances =
        record { user_id = "alice"; asset = "USDT"; available = pos 10; frozen = pos 0 }
        ∷ record { user_id = "alice"; asset = "BTC"; available = pos 0; frozen = pos 0 }
        ∷ record { user_id = "bob"; asset = "USDT"; available = pos 0; frozen = pos 0 }
        ∷ record { user_id = "bob"; asset = "BTC"; available = pos 1; frozen = pos 1 }
        ∷ [];
  };
  server = record {
    hub = record {
      symbols = "BTC/USDT" ∷ [];
      books =
          record {
            key = "CEX:BTC/USDT";
            book = record { symbol = "BTC/USDT"; bids = []; asks = bob_ask ∷ []; trades = [] };
          }
          ∷ [];
    };
    clients = [];
    sent = [];
  };
  orders = record {
    symbols = bitcoin ∷ [];
    orders =
        record bid {
          id = "s1";
          user_id = "bob";
          side = Side.sell;
          price = some (pos 3);
          quantity = pos 1;
        }
        ∷ [];
    trades = [];
  };
}

abbrev buy_two : PlaceOrderRequest
buy_two = record {
  user_id = "alice";
  symbol = "BTC/USDT";
  side = Side.buy;
  order_type = OrderType.limit;
  price = "111";
  quantity = "11";
}

abbrev bought : Order
bought = record bid { id = "o1"; status = OrderStatus.partially_filled; filled_qty = pos 1 }

abbrev bought_trade : Trade
bought_trade = record {
  id = "r";
  venue = Venue.cex;
  symbol = "BTC/USDT";
  buy_order_id = "o1";
  sell_order_id = "s1";
  buyer_user_id = "alice";
  seller_user_id = "bob";
  price = pos 3;
  quantity = pos 1;
}

abbrev after_buy : Desk
after_buy = (place_order cex draws buy_two trading_desk).1

buy_run : place_order cex draws buy_two trading_desk ≡ (ok (bought, bought_trade ∷ []), after_buy)
unfolding place_order ◌>>=◌ get_symbol parse of_text order_price send_freeze serve_account text ◌*ℤ◌
    freeze update_row ◌-ℤ◌ ◌+ℤ◌ insert_freeze_ledger or_undo create_order submit_order settle_all
    settle_match record_trade note_makers get_order match_order final_status update_order_fill
    collateral_for_order negate settle_trade insert_trade broadcast set_book valid_venue rest_order
    match_buy send_settle_trade apply_legs release_all verify_ledger_balance
buy_run = refl

place_order-IsTold_example :
    IsTold draws buy_two bought (bought_trade ∷ [])
    × (get_order "o1" after_buy.orders.orders ≡ some bought)
place_order-IsTold_example =
    place_order-IsTold cex draws buy_two trading_desk after_buy bought (bought_trade ∷ []) buy_run

cancel_open-held_example :
    held "USDT" (cancel_open cex "o0" desk).1.account.balances ≡ held "USDT" desk.account.balances
cancel_open-held_example = cancel_open-held cex "o0" desk "USDT"
