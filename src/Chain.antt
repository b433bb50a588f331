-- ===== src/Chain.antt =====
-- packages/chainrpc and packages/chainstore: hex quantities, event logs, the client's calls, the tables
-- of the indexer and its round.
pub mod Text
pub mod Hex
pub mod Events
pub mod Client
pub mod Store
pub mod Blocks
pub mod Sync
pub mod Gateway
pub mod RoundTrip
pub mod Kept
pub mod Rounds
pub mod Cursor
pub mod Progress
pub mod Served
pub mod Topics
pub mod Indexer
pub mod Started
mod Tests
