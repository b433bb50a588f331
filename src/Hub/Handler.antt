-- ===== src/Hub/Handler.antt =====
-- services/matching-engine/internal/handler/handler.go. A book and the list of WebSocket clients have
-- a lock each, so a handler is one step on the server. `sent` is what was written to the clients,
-- the newest first. JSON, the router and the upgrade of a connection are not modelled.
use crypto_exchange_lab.Prelude.{
  ℕ, Bool, String, List, [], ◌∷◌, ◌++◌, Option, none, some, if◌then◌else◌, ◌==◌, ◌&&◌, map, nat_eqb,
}
use Prim.Native.String.{◌++◌ as ◌<>◌}
use crypto_exchange_lab.Decimal.{Decimal, Amount, nil}
use crypto_exchange_lab.Exchange.{Side, Venue, valid_venue}
use crypto_exchange_lab.Errors.{Code, Result, ok, err, fails, ◌>>=◌, reported}
use crypto_exchange_lab.Account.Handler.{parse}
use crypto_exchange_lab.Matching.Book.{Order, Trade, Book, cancel, recent_trades}
use crypto_exchange_lab.Matching.Sweep.{match_order}
use crypto_exchange_lab.Matching.Depth.{PriceLevel, depth}
use crypto_exchange_lab.Hub.Books.{Hub, venue_text, book_key, venues, set_book, book_of}

-- The conversions between a string and its Go type: each constant is its text.
abbrev pub venue_of : String → Venue
venue_of s = if s == "CEX" then Venue.cex else if s == "DEX" then Venue.dex else Venue.other s

abbrev pub side_of : String → Side
side_of s = if s == "BUY" then Side.buy else if s == "SELL" then Side.sell else Side.other s

pub record SubmitReq : Type 0 where
  pub venue : String
  pub order_id : String
  pub user_id : String
  pub symbol : String
  pub side : String
  pub type_name : String
  pub price : String
  pub quantity : String

-- The time of an order, those of its fills, and how a time is printed.
pub record Times : Type 0 where
  pub now : ℕ
  pub clock : ℕ → ℕ
  pub rfc3339 : ℕ → String
  pub rfc3339_nano : ℕ → String

pub record WsClient : Type 0 where
  pub conn : ℕ
  pub venue : Venue
  pub symbol : String

-- A fill and an order that rests, as the answer prints them.
pub record TradeResp : Type 0 where
  pub id : String
  pub symbol : String
  pub buy_order_id : String
  pub sell_order_id : String
  pub buyer_user_id : String
  pub seller_user_id : String
  pub price : String
  pub quantity : String

pub record RestingResp : Type 0 where
  pub order_id : String
  pub remaining : String

pub record TapeRow : Type 0 where
  pub price : String
  pub quantity : String
  pub timestamp : String

abbrev pub non_empty : String → String → String
non_empty s default = if s == "" then default else s

-- `parseVenue`: the body's venue, or the query's, or CEX.
unfoldable pub parse_venue : String → String → Result Venue
parse_venue query body =
    let venue = venue_of (non_empty (non_empty body query) "CEX") in
    if valid_venue venue then ok venue else fails Code.invalid_argument "invalid venue"

module _ ⦃d : Decimal⦄ where
  pub record Snapshot : Type 0 where
    pub venue : Venue
    pub symbol : String
    pub bids : List PriceLevel
    pub asks : List PriceLevel
    pub trades : List Trade

  pub record Server : Type 0 where
    pub hub : Hub
    pub clients : List WsClient
    pub sent : List (ℕ × Snapshot)

  pub data Answer : Type 0 where
    listed : List Venue → List String → Answer
    matched : Venue → List TradeResp → Option RestingResp → Answer
    removed : RestingResp → Answer
    ladder : Venue → String → List PriceLevel → List PriceLevel → Answer
    tape : Venue → String → List TapeRow → Answer
    failed : Code → Answer

  abbrev pub snapshot : Venue → String → Book → Snapshot
  snapshot venue symbol book =
      let (bids, asks) = depth 15 book in
      record {
        venue = venue;
        symbol = symbol;
        bids = bids;
        asks = asks;
        trades = recent_trades 20 book;
      }

  abbrev pub same_venue : Venue → Venue → Bool
  same_venue v u = venue_text v == venue_text u

  unfoldable pub messages : Venue → String → Snapshot → List WsClient → List (ℕ × Snapshot)
  messages venue symbol s [] = []
  messages venue symbol s (c ∷ cs) =
      let rest = messages venue symbol s cs in
      if same_venue c.venue venue && c.symbol == symbol then (c.conn, s) ∷ rest else rest

  -- `broadcast`: a snapshot of the book to each client of its venue and symbol.
  unfoldable pub broadcast : Venue → String → Server → Server
  unfolding messages
  broadcast venue symbol sv = elim (book_of venue symbol sv.hub) [
    | none ↦ sv
    | some book ↦ record sv {
      sent = messages venue symbol (snapshot venue symbol book) sv.clients ++ sv.sent;
    }
  ]

  -- `sendSnapshot`.
  unfoldable pub send_snapshot : WsClient → Server → Server
  send_snapshot c sv = elim (book_of c.venue c.symbol sv.hub) [
    | none ↦ sv
    | some book ↦ record sv { sent = (c.conn, snapshot c.venue c.symbol book) ∷ sv.sent }
  ]

  -- A Go book is changed in place: the hub's entry is what its owner sees.
  abbrev pub with_book : Venue → String → Book → Server → Server
  with_book venue symbol book sv = record sv {
    hub = record sv.hub { books = set_book (book_key venue symbol) book sv.hub.books };
  }

  abbrev pub found_book : Option Book → Result Book
  found_book none = fails Code.invalid_argument "unknown symbol"
  found_book (some b) = ok b

  abbrev pub submit_price : SubmitReq → Result Amount
  submit_price req = if req.type_name == "MARKET" then ok nil else parse req.price

  abbrev pub trade_resp : Times → Trade → TradeResp
  trade_resp times t = record {
    id = t.buy_order_id <> "-" <> t.sell_order_id <> "-" <> times.rfc3339_nano t.timestamp;
    symbol = t.symbol;
    buy_order_id = t.buy_order_id;
    sell_order_id = t.sell_order_id;
    buyer_user_id = t.buyer_user_id;
    seller_user_id = t.seller_user_id;
    price = d.text t.price;
    quantity = d.text t.quantity;
  }

  abbrev pub resting_resp : Option Order → Option RestingResp
  resting_resp none = none
  resting_resp (some o) = some (record { order_id = o.id; remaining = d.text o.remaining })

  -- The order that a request stands for, with its venue and book, or the first error in it.
  unfoldable pub read_submit : Times → SubmitReq → String → Hub → Result (Venue × Book × Order)
  unfolding parse_venue book_of
  read_submit times req query hub = do
    venue ← parse_venue query req.venue
    book ← found_book (book_of venue req.symbol hub)
    qty ← parse req.quantity
    price ← submit_price req
    ok (
      venue,
      book,
      record {
        id = req.order_id;
        user_id = req.user_id;
        side = side_of req.side;
        price = price;
        quantity = qty;
        remaining = qty;
        created_at = times.now;
      },
    )

  -- `book.Match`, the broadcast and the answer.
  unfoldable pub matched_on : Times → String → Venue × Book × Order → Server → Answer × Server
  unfolding match_order broadcast
  matched_on times symbol (venue, book, o) sv =
      let (fills, resting, after) = match_order times.clock o book in
      (
        matched venue (map (trade_resp times) fills) (resting_resp resting),
        broadcast venue symbol (with_book venue symbol after sv),
      )

  abbrev pub answer_or_fail {ℓ} :
      {A : Type ℓ} → Result A → (A → Server → Answer × Server) → Server → Answer × Server
  answer_or_fail (ok a) next sv = next a sv
  answer_or_fail (err e) next sv = (failed (reported e), sv)

  -- `submitOrder`; a body that is not JSON is `none`.
  unfoldable pub submit_order : Times → Option SubmitReq → String → Server → Answer × Server
  unfolding read_submit matched_on
  submit_order times none query sv = (failed Code.invalid_argument, sv)
  submit_order times (some req) query sv =
      answer_or_fail (read_submit times req query sv.hub) (matched_on times req.symbol) sv

  -- The book that a query names.
  unfoldable pub query_book : String → String → Hub → Result (Venue × Book)
  unfolding parse_venue book_of
  query_book query symbol hub = do
    venue ← parse_venue query ""
    book ← found_book (book_of venue symbol hub)
    ok (venue, book)

  abbrev pub cancelled_on : String → Option Order × Book → Venue → Server → Answer × Server
  cancelled_on symbol (none, after) venue sv = (failed Code.not_found, sv)
  cancelled_on symbol (some o, after) venue sv = (
    removed (record { order_id = o.id; remaining = d.text o.remaining }),
    broadcast venue symbol (with_book venue symbol after sv),
  )

  -- `cancelOrder`.
  unfoldable pub cancel_order : String → String → String → Server → Answer × Server
  unfolding query_book cancel broadcast
  cancel_order id symbol query sv =
      if symbol == ""
      then (failed Code.invalid_argument, sv)
      else answer_or_fail (query_book query symbol sv.hub)
          (λ vb. cancelled_on symbol (cancel id vb.1) vb.0) sv

  -- `depth`.
  unfoldable pub show_depth : String → String → Server → Answer × Server
  unfolding query_book depth
  show_depth symbol query sv =
      answer_or_fail (query_book query symbol sv.hub)
        (λ vb s. (ladder vb.0 symbol (depth 15 vb.1).0 (depth 15 vb.1).1, s)) sv

  abbrev pub tape_row : Times → Trade → TapeRow
  tape_row times t = record {
    price = d.text t.price;
    quantity = d.text t.quantity;
    timestamp = times.rfc3339 t.timestamp;
  }

  -- `trades`.
  unfoldable pub show_trades : Times → String → String → Server → Answer × Server
  unfolding query_book recent_trades
  show_trades times symbol query sv =
      answer_or_fail (query_book query symbol sv.hub)
        (λ vb s. (tape vb.0 symbol (map (tape_row times) (recent_trades 50 vb.1)), s)) sv

  -- `listVenues`.
  unfoldable pub list_venues : Server → Answer × Server
  list_venues sv = (listed venues sv.hub.symbols, sv)

  abbrev pub join : WsClient → Server → Server
  join c sv = send_snapshot c (record sv { clients = sv.clients ++ c ∷ [] })

  abbrev pub join_venue : ℕ → String → Result Venue → Server → Server
  join_venue conn symbol (err e) sv = sv
  join_venue conn symbol (ok venue) sv =
      join (record { conn = conn; venue = venue; symbol = non_empty symbol "BTC/USDT" }) sv

  -- `marketWS` up to its loop: the new client gets a snapshot. An invalid venue is answered.
  unfoldable pub market_ws : ℕ → String → String → Server → Server
  unfolding parse_venue send_snapshot
  market_ws conn symbol query sv = join_venue conn symbol (parse_venue query "") sv

  -- The deferred function of `marketWS`, when the client is gone.
  unfoldable pub drop_client : ℕ → List WsClient → List WsClient
  drop_client conn [] = []
  drop_client conn (c ∷ cs) = if nat_eqb c.conn conn then cs else c ∷ drop_client conn cs

  unfoldable pub leave_ws : ℕ → Server → Server
  unfolding drop_client
  leave_ws conn sv = record sv { clients = drop_client conn sv.clients }

  -- The routes of `Register`.
  pub data Request : Type 0 where
    venues_request : Request
    submitting : Option SubmitReq → String → Request
    cancelling : String → String → String → Request
    depth_request : String → String → Request
    trades_request : String → String → Request
    joining : ℕ → String → String → Request
    leaving : ℕ → Request

  -- `Register`: a WebSocket route writes no answer of its own.
  unfoldable pub handle : Times → Request → Server → Option Answer × Server
  unfolding list_venues submit_order cancel_order show_depth show_trades market_ws leave_ws
  handle times venues_request sv = let (a, after) = list_venues sv in (some a, after)
  handle times (submitting body query) sv =
      let (a, after) = submit_order times body query sv in (some a, after)
  handle times (cancelling id symbol query) sv =
      let (a, after) = cancel_order id symbol query sv in (some a, after)
  handle times (depth_request symbol query) sv =
      let (a, after) = show_depth symbol query sv in (some a, after)
  handle times (trades_request symbol query) sv =
      let (a, after) = show_trades times symbol query sv in (some a, after)
  handle times (joining conn symbol query) sv = (none, market_ws conn symbol query sv)
  handle times (leaving conn) sv = (none, leave_ws conn sv)
