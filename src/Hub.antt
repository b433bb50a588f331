-- ===== src/Hub.antt =====
-- services/matching-engine: the books of both venues (internal/engine/hub.go) and the demo quotes
-- (internal/seed/seed.go), with the markets of packages/go-common/exchange/markets.go.
pub mod Books
pub mod Seed
pub mod Quoted
pub mod Handler
pub mod Reading
pub mod Serving
pub mod Refined
mod Tests
