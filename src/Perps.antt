-- ===== src/Perps.antt =====
-- Perpetual futures: the arithmetic of packages/perps, the tables of packages/perpstore, and the
-- engine of packages/perpservice on top of them and of account-service.
pub mod Math
pub mod Store
pub mod Client
pub mod Posted
pub mod Engine
pub mod Closing
pub mod Positions
pub mod Keeping
pub mod Requests
pub mod Once
pub mod Api
pub mod Serving
pub mod Rounds
pub mod Guarded
pub mod Covered
pub mod Funded
pub mod Conserved
mod CoveredTests
mod Tests
