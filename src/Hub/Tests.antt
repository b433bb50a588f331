-- ===== src/Hub/Tests.antt =====
-- The theorems on the hub at a concrete hub.
use crypto_exchange_lab.Prelude.{ℕ, ◌≡◌, String, [], ◌∷◌, some}
use crypto_exchange_lab.Decimal.Whole.{whole}
use crypto_exchange_lab.Exchange.{Side, Venue}
use crypto_exchange_lab.Hub.Books.{new_hub}
use crypto_exchange_lab.Hub.Seed.{liquidity}
use crypto_exchange_lab.Hub.Handler.{Times, Server, SubmitReq, submitting, handle}
use crypto_exchange_lab.Hub.Refined.{expected, view, handle-expected}

abbrev clock : ℕ → ℕ
clock n = n

abbrev ids : Side → String
ids s = "quote"

abbrev times : Times
times = record { now = 5; clock = clock; rfc3339 = λ n. "t"; rfc3339_nano = λ n. "t" }

abbrev server : Server
server = record {
  hub = liquidity clock ids 5 (new_hub ("BTC/USDT" ∷ []));
  clients = record { conn = 1; venue = Venue.cex; symbol = "BTC/USDT" } ∷ [];
  sent = [];
}

abbrev bid : SubmitReq
bid = record {
  venue = "CEX";
  order_id = "o1";
  user_id = "alice";
  symbol = "BTC/USDT";
  side = "BUY";
  type_name = "LIMIT";
  price = "111";
  quantity = "11";
}

handle-expected_example :
    view (handle times (submitting (some bid) "") server).1 "CEX:BTC/USDT"
    ≡ expected times (submitting (some bid) "") (view server) "CEX:BTC/USDT"
handle-expected_example = handle-expected times (submitting (some bid) "") server "CEX:BTC/USDT"
