-- ===== src/Account.antt =====
-- services/account-service: the balances and the double-entry ledger (internal/store), and the HTTP
-- handlers in front of them (internal/handler).
pub mod Store
pub mod Ledger
pub mod Operations
pub mod Rows
pub mod Posting
pub mod Settlement
pub mod Settled
pub mod Collateral
pub mod Soundness
pub mod Undone
pub mod SoundTrades
pub mod Handler
pub mod Serving
pub mod Conserved
mod Tests
