-- ===== src/Orders.antt =====
-- packages/orderstore, packages/orderflow, packages/orderapi and packages/tradeclients/matching.go.
pub mod Store
pub mod Settle
pub mod Flow
pub mod Withdrawal
pub mod Serving
pub mod Rows
pub mod Kept
pub mod Keeping
pub mod Released
pub mod Returned
pub mod Refused
pub mod Isolated
pub mod OwnRow
pub mod Filled
pub mod Told
pub mod Cancelling
pub mod Strangers
pub mod Api
pub mod Balanced
mod RefusedTests
mod Tests
