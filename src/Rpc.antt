-- ===== src/Rpc.antt =====
-- crates/risepir-rpc: the delta journal that a restart replays.
pub mod Journal
