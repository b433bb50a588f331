-- ===== src/Exchange.antt =====
-- The vocabulary of packages/go-common/exchange (types.go, venue.go, perp.go, markets.go). Each Go
-- type here is a string with named constants; `other` is every string that is none of them.
use crypto_exchange_lab.Prelude.{String, Bool, true, false}

pub data Side : Type 0 where
  buy : Side
  sell : Side
  other : String → Side

pub data OrderType : Type 0 where
  limit : OrderType
  market : OrderType
  other : String → OrderType

pub data OrderStatus : Type 0 where
  new_order : OrderStatus
  partially_filled : OrderStatus
  filled : OrderStatus
  cancelled : OrderStatus

pub data Venue : Type 0 where
  cex : Venue
  dex : Venue
  other : String → Venue

pub data PositionSide : Type 0 where
  long : PositionSide
  short : PositionSide
  other : String → PositionSide

-- `ValidVenue`.
unfoldable pub valid_venue : Venue → Bool
valid_venue Venue.cex = true
valid_venue Venue.dex = true
valid_venue (Venue.other s) = false
