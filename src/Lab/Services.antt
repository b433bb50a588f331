-- ===== src/Lab/Services.antt =====
-- What services/*/cmd/server/main.go wire up: the values that each service starts from, its own
-- routes, and its ticker. The services share the tables of account-service; a request, and a round
-- of a ticker, is one step. The value of an environment variable is an argument. Ports, logs and
-- the network are not modelled.
use crypto_exchange_lab.Prelude.{ℕ, String, List, Option, none, some, if◌then◌else◌, ◌==◌, map}
use crypto_exchange_lab.Decimal.{Decimal, Amount}
use crypto_exchange_lab.Exchange.{Side, Venue}
use crypto_exchange_lab.Account.Store.{Tables}
use crypto_exchange_lab.Account.Handler.{Request as AccountRequest, serve as serve_account}
use crypto_exchange_lab.Matching.Depth.{PriceLevel}
use crypto_exchange_lab.Hub.Books.{Hub, default_spot_symbols, new_hub}
use crypto_exchange_lab.Hub.Seed.{enabled, liquidity}
use crypto_exchange_lab.Hub.Handler.{
  Times, Server, Answer, Request as MatchingRequest, show_depth, handle,
}
use crypto_exchange_lab.Orders.Store.{OrderTables}
use crypto_exchange_lab.Orders.Flow.{Draws as OrderDraws, Desk}
use crypto_exchange_lab.Orders.Api.{Handler, Request as OrderRequest, serve as serve_orders}
use crypto_exchange_lab.Perps.Store.{PerpTables, latest_funding_rate}
use crypto_exchange_lab.Perps.Engine.{World}
use crypto_exchange_lab.Perps.Rounds.{or_zero, run_scanner, run_settler, tick}
use crypto_exchange_lab.Perps.Api.{Draws as PerpDraws, Request as PerpRequest, serve as serve_perps}

-- `env`, on the value of the variable.
abbrev pub env : String → String → String
env value default = if value == "" then default else value

-- The handlers of order-service and orderbook-dex.
abbrev pub order_service : Handler
order_service = record {
  engine = record { venue = Venue.cex; ref_type = "cex_order" };
  service = "order-service";
  phase = "1";
}

abbrev pub orderbook_dex : Handler
orderbook_dex = record {
  engine = record { venue = Venue.dex; ref_type = "dex_order" };
  service = "orderbook-dex";
  phase = "2";
}

-- What the routes of funding-engine answer.
pub data FundingAnswer : Type 0 where
  default_rate : String → FundingAnswer
  symbol_rate : String → String → FundingAnswer
  settled : ℕ → String → FundingAnswer

module _ ⦃d : Decimal⦄ where
  -- The hub that matching-engine starts with, with the demo quotes where they are enabled.
  unfoldable pub start_hub : String → (ℕ → ℕ) → (Side → String) → ℕ → Hub
  unfolding new_hub liquidity enabled
  start_hub seed clock ids now =
      if enabled seed
      then liquidity clock ids now (new_hub default_spot_symbols)
      else new_hub default_spot_symbols

  -- matching-engine, as `New` of its handler makes it.
  abbrev pub start_server : String → (ℕ → ℕ) → (Side → String) → ℕ → Server
  start_server seed clock ids now = record {
    hub = start_hub seed clock ids now;
    clients = List.[];
    sent = List.[];
  }

  -- The rate of funding-engine: a text that is no number is zero.
  abbrev pub funding_rate : String → Amount
  funding_rate value = or_zero (d.of_text (env value "0.0001"))

  abbrev pub shown_rate : Amount → Option Amount → String
  shown_rate rate none = d.text rate
  shown_rate rate (some latest) = d.text latest

  -- `GET /api/v1/funding/rates`.
  unfoldable pub handle_rates : Amount → String → World → FundingAnswer
  unfolding latest_funding_rate
  handle_rates rate symbol w =
      if symbol == ""
      then default_rate (d.text rate)
      else symbol_rate symbol (shown_rate rate (latest_funding_rate symbol w.perp.rates))

  -- `POST /api/v1/funding/settle`.
  unfoldable pub handle_settle : Amount → (ℕ → String) → World → FundingAnswer × World
  unfolding run_settler
  handle_settle rate ids w =
      let (payments, after) = run_settler rate ids w in (settled payments (d.text rate), after)

  abbrev pub prices_of : List PriceLevel → List String
  prices_of = map (λ (l : PriceLevel). l.price)

  -- The envelope that `fetchCEXMid` decodes.
  abbrev pub depth_prices : Answer → Option (List String × List String)
  depth_prices (Answer.ladder venue symbol bids asks) = some (prices_of bids, prices_of asks)
  depth_prices _ = none

  -- What matching-engine answers to `fetchCEXMid`, for a spot symbol.
  unfoldable pub cex_depth : Server → String → Option (List String × List String)
  unfolding show_depth
  cex_depth sv spot_symbol = depth_prices (show_depth spot_symbol "CEX" sv).0

  -- The state of the services that trade.
  pub record Lab : Type 0 where
    pub account : Tables
    pub server : Server
    pub orders : OrderTables
    pub perp : PerpTables

  abbrev pub desk_of : Lab → Desk
  desk_of l = record { account = l.account; server = l.server; orders = l.orders }

  abbrev pub with_desk : Desk → Lab → Lab
  with_desk w l = record l { account = w.account; server = w.server; orders = w.orders }

  abbrev pub world_of : Lab → World
  world_of l = record { account = l.account; perp = l.perp }

  abbrev pub with_world : World → Lab → Lab
  with_world w l = record l { account = w.account; perp = w.perp }

  -- A request to one of the services, or a round of a ticker. A round and its route, `POST
  -- /api/v1/scan` or `POST /api/v1/funding/settle`, do the same to the state.
  pub data Event : Type 0 where
    to_account : AccountRequest → Event
    to_matching : Times → MatchingRequest → Event
    to_order_service : OrderDraws → OrderRequest → Event
    to_orderbook_dex : OrderDraws → OrderRequest → Event
    to_perps : PerpDraws → PerpRequest → Event
    scanning : (ℕ → String) → Event
    asking_rate : String → Event
    settling : (ℕ → String) → Event
    marking : Event

  -- `rate` is what funding-engine read at its start.
  unfoldable pub step : Amount → Event → Lab → Lab
  unfolding serve_account handle serve_orders serve_perps run_scanner handle_settle cex_depth tick
  step rate (to_account r) l = record l { account = (serve_account r l.account).1 }
  step rate (to_matching times r) l = record l { server = (handle times r l.server).1 }
  step rate (to_order_service draws r) l =
      with_desk (serve_orders order_service draws r (desk_of l)).1 l
  step rate (to_orderbook_dex draws r) l =
      with_desk (serve_orders orderbook_dex draws r (desk_of l)).1 l
  step rate (to_perps draws r) l = with_world (serve_perps draws r (world_of l)).1 l
  step rate (scanning ids) l = with_world (run_scanner ids (world_of l)).1 l
  step rate (asking_rate symbol) l = l
  step rate (settling ids) l = with_world (handle_settle rate ids (world_of l)).1 l
  step rate marking l = record l { perp = tick (cex_depth l.server) l.perp }

  -- The services after events, in the order in which they happen.
  unfoldable pub run : Amount → List Event → Lab → Lab
  unfolding step
  run rate List.[] l = l
  run rate (List.◌∷◌ e es) l = run rate es (step rate e l)
