-- ===== src/Common.antt =====
-- packages/go-common around every service: its configuration, and the handlers in front of its routes.
pub mod Env
pub mod Front
pub mod Counted
pub mod Services
mod Tests
