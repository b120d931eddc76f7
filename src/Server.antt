-- ===== src/Server.antt =====
-- crates/risepir-server: the retention window over the recent block deltas, the verified scan, the fold
-- of the store's mutations into deltas, and the server itself.
pub mod DeltaRing
pub mod Verified
pub mod Fold
pub mod RisePir
mod Tests
