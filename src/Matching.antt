-- ===== src/Matching.antt =====
-- packages/matching/book.go: a price-time priority order book for one symbol. The mutex makes each
-- public method one step, so a method is a function from the book to the book and its results.
-- `clock n` is the answer of `time.Now` after n fills of a call.
pub mod Book
pub mod Fill
pub mod Sweep
pub mod Depth
pub mod Termination
pub mod Totals
pub mod Priority
pub mod Invariant
pub mod Cancel
pub mod Withdraw
pub mod Prices
pub mod Reference
mod Tests
pub mod Balance
pub mod Keeps
pub mod Frame
pub mod Conservation
