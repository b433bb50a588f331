-- ===== src/Lib.antt =====
-- Crypto Exchange Lab: a model of the core of the exchange's Go code. An order book matches orders,
-- account-service holds balances and a double-entry ledger, and the perpetual engine opens, closes,
-- liquidates and funds positions with margin that it freezes in account-service.
--
-- The parts, and the code that each translates (paths from the repository's root):
--   Prelude    shared names, lists and integers over the native numbers.
--   Decimal    github.com/shopspring/decimal, which the repository imports: an interface, an
--              instance argument of the rest, with the documented laws of exact arithmetic and of
--              the order; `Div` has no law there, and Perps/Covered names the two facts on it that it uses. packages/go-common/money only calls it. Decimal/Whole
--              is an instance on whole numbers, so that the tests compute.
--   Exchange   packages/go-common/exchange: Go's string types with constants are data types whose
--              last constructor is any other string.
--   Loop, Sort the loops of the book on fuel, and sort.Slice as an insertion sort.
--   Matching   packages/matching/book.go. Book: the state and Cancel, NewBook, RecentTrades; Fill:
--              fillAgainst; Sweep: matchBuy, matchSell, insertResting's caller Match; Depth:
--              Depth and aggregateSide. A mutex guards each method, so that a method is one step.
--              The clock is an argument. The other files of Matching hold lemmas.
--   Errors     packages/go-common/errors and the status codes of packages/go-common/httputil.
--   Account    services/account-service. Store: the tables of infra/postgres/migrations and an
--              UPDATE of one balance row with its CHECK constraints; Ledger: internal/store/
--              ledger.go; Operations: balances.go and users.go, each method one transaction of the
--              database that commits its tables or rolls back; Handler: internal/handler.
--   Perps      Math: packages/perps/math.go; Store: packages/perpstore; Client: packages/
--              tradeclients/account.go; Engine and Closing: packages/perpservice/engine.go on the
--              state of both services; Rounds: RunOnce of services/liquidation-engine and
--              services/funding-engine, and markfeed.go; Api: internal/handler of services/
--              hyperliquid-engine and the routes of services/risk-engine.
--   Hub        services/matching-engine: Books: internal/engine/hub.go; Seed: internal/seed/seed.go;
--              Handler: internal/handler/handler.go, with the clients of the feed and what is sent.
--   Orders     Store: packages/orderstore/store.go; Settle, Flow and Withdrawal: packages/orderflow/
--              flow.go with packages/tradeclients/matching.go; Api: packages/orderapi/handler.go.
--   Chain      Hex, Events and Client: packages/chainrpc, with Text for what Go prints; Store, Blocks and
--              Sync: packages/chainstore, and the ticker of services/indexer; Indexer: what the main
--              of services/indexer starts from; Gateway: services/rpc-gateway/internal/handler.
--   Common     packages/go-common: Env: config, and how the mains read numbers; Front: cors and metrics,
--              in front of the routes; Services: the port and the headers of each main.
--   Lab        services/*/cmd/server/main.go: Services has what each service starts with, the routes of
--              services/funding-engine, what services/matching-engine answers to the mark price feed,
--              and a step for each request and each round of a ticker on the state of all services.
--   Stateful   calls on a state that may fail and leave what was written before: how the perpetual
--              engine and the order flow chain the calls of their services.
--
-- How they interact: a perpetual call formats an amount, and Client hands the request to
-- Account.Handler.serve, which parses it and runs the transaction; what was committed before an
-- error stays, as it does between the two services. The order flow does the same with account-service,
-- and hands each order to Hub.Handler as text, which parses it and runs the book of its venue and
-- symbol; its own rows are a third state.
--
-- Fuel: each loop of Match runs with two rounds more than the other side has orders. A round ends
-- the taker or takes the best order off, so that the loop's own condition stops it first. A number is
-- printed with one round more than its value. The loop of RunOnce runs for the blocks between its ends.
--
-- Not modelled: logs, latencies, connections, timeouts and the failures of the network and the database; the rounding
-- of a decimal to a NUMERIC(36, 18) column and the lengths of VARCHAR columns; foreign keys of the
-- perpetual tables; times of rows; a Go `int` below 1 as a leverage is 0; texts of errors that are
-- not AppErrors. A new uuid is an argument of the call that draws it. The routers,
-- JSON, what a node answers (a parameter) and the frontends are left out.
pub mod Prelude
pub mod Decimal
pub mod Exchange
pub mod Loop
pub mod Sort
pub mod Matching
pub mod Errors
pub mod Stateful
pub mod Account
pub mod Perps
pub mod Hub
pub mod Orders
pub mod Chain
pub mod Common
pub mod Lab
