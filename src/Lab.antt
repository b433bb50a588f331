-- ===== src/Lab.antt =====
-- The services side by side, as services/*/cmd/server/main.go put them together: what each is given
-- at its start, and the requests and rounds that they go through.
pub mod Services
pub mod Scanned
pub mod Running
pub mod Conserved
pub mod Marks
pub mod Isolated
mod Tests
