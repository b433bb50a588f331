-- ===== src/Lab/Tests.antt =====
-- The services on small tables, started with the demo quotes.
use crypto_exchange_lab.Prelude.{ℕ, String, List, [], ◌∷◌, All, ◌≡◌, refl, some}
use crypto_exchange_lab.Prelude.Int.{pos}
use crypto_exchange_lab.Decimal.Whole.{whole}
use crypto_exchange_lab.Exchange.{Side, Venue}
use crypto_exchange_lab.Account.Store.{Tables}
use crypto_exchange_lab.Hub.Books.{book_of, default_spot_symbols, new_hub}
use crypto_exchange_lab.Hub.Seed.{liquidity}
use crypto_exchange_lab.Hub.Quoted.{liquidity-AllValid}
use crypto_exchange_lab.Hub.Handler.{Server}
use crypto_exchange_lab.Orders.Store.{OrderTables}
use crypto_exchange_lab.Orders.Flow.{Draws, Desk}
use crypto_exchange_lab.Orders.Api.{Request, placing, serve}
use crypto_exchange_lab.Perps.Store.{Market, PerpTables, get_mark_price}
use crypto_exchange_lab.Perps.Rounds.{tick}
use crypto_exchange_lab.Lab.Services.{
  Event, order_service, orderbook_dex, scanning, marking, to_perps, settling, Lab, cex_depth, run,
}
use crypto_exchange_lab.Lab.Conserved.{run-held}
use crypto_exchange_lab.Account.Rows.{held}
use crypto_exchange_lab.Perps.Api.{opening}
use crypto_exchange_lab.Lab.Running.{IsAllRight, launch, launch-IsAllRight}
use crypto_exchange_lab.Lab.Isolated.{serve_isolated}
use crypto_exchange_lab.Lab.Marks.{book_middle, marked, tick_books}

abbrev names : ℕ → String
names n = "t"

abbrev ids : Side → String
ids s = "quote"

abbrev clock : ℕ → ℕ
clock n = n

abbrev accounts : Tables
accounts = record {
  assets = "BTC" ∷ "USDT" ∷ [];
  users = record { id = "alice"; username = "Alice" } ∷ [];
  balances =
      record { user_id = "alice"; asset = "USDT"; available = pos 2000; frozen = pos 0 }
      ∷ record { user_id = "alice"; asset = "BTC"; available = pos 3; frozen = pos 0 }
      ∷ [];
  transactions = [];
  entries = [];
}

abbrev orders : OrderTables
orders = record {
  symbols = record { name = "BTC/USDT"; base_asset = "BTC"; quote_asset = "USDT" } ∷ [];
  orders = [];
  trades = [];
}

abbrev market : String → String → Market
market symbol spot = record {
  symbol = symbol;
  spot_symbol = spot;
  base_asset = "BTC";
  quote_asset = "USDT";
  max_leverage = 20;
  maint_margin_rate = pos 0;
  taker_fee_rate = pos 0;
}

abbrev perp : PerpTables
perp = record {
  markets = market "BTC-PERP" "BTC/USDT" ∷ market "ETH-PERP" "ETH/USDT" ∷ [];
  marks = record { symbol = "BTC-PERP"; price = pos 110 } ∷ [];
  positions = [];
  events = [];
  rates = [];
  payments = [];
}

abbrev draws : Draws
draws = record {
  order_id = "o1";
  trade_id = names;
  row_id = names;
  times = record { now = 5; clock = clock; rfc3339 = names; rfc3339_nano = names };
}

-- Alice opens a long with the margin frozen, the mark prices are read, the scanner and the settler run.
abbrev events : List Event
events =
    to_perps (record { pos_id = "p1"; freeze_ref = "f1"; trade_id = "x1" })
      (opening (
        some (record {
          user_id = "alice";
          symbol = "BTC-PERP";
          side = "LONG";
          size = "11";
          leverage = 1;
        })))
    ∷ marking
    ∷ scanning names
    ∷ settling names
    ∷ []

abbrev lab : Lab
lab = launch accounts orders perp "" clock ids 5

lab-IsAllRight : IsAllRight lab
lab-IsAllRight =
    launch-IsAllRight accounts orders perp "" clock ids 5
      (record { good = ((refl, refl, refl), ((refl, refl, refl), tt)); recorded = tt })
      (record { allowed = tt; distinct = tt }) (record { allowed = tt; distinct = tt })

run-held_example :
    held "USDT" (run (pos 1) events lab).account.balances ≡ held "USDT" lab.account.balances
run-held_example =
    run-held (pos 1) events lab lab-IsAllRight (refl, (refl, (refl, (refl, tt)))) "USDT"

abbrev server : Server
server = record {
  hub = liquidity clock ids 5 (new_hub default_spot_symbols);
  clients = [];
  sent = [];
}

tick_books_example :
    All
      (λ (m : Market).
        get_mark_price m.symbol (tick (cex_depth server) perp).marks
        ≡ marked
            (book_middle (book_of Venue.cex m.spot_symbol server.hub))
            (get_mark_price m.symbol perp.marks))
      perp.markets
tick_books_example =
    tick_books server perp (liquidity-AllValid clock ids 5 default_spot_symbols)
      ((refl, tt), (tt, tt))

abbrev bid : Request
bid = placing (
    some (record {
      user_id = "alice";
      symbol = "BTC/USDT";
      side = "BUY";
      type_name = "LIMIT";
      price = "111";
      quantity = "11";
    }))

abbrev desk : Desk
desk = record { account = accounts; server = server; orders = orders }

serve_isolated_example :
    (book_of Venue.dex "BTC/USDT" (serve order_service draws bid desk).1.server.hub
      ≡ book_of Venue.dex "BTC/USDT" desk.server.hub)
    × (book_of Venue.cex "BTC/USDT" (serve orderbook_dex draws bid desk).1.server.hub
        ≡ book_of Venue.cex "BTC/USDT" desk.server.hub)
serve_isolated_example = serve_isolated draws bid desk "BTC/USDT"
