-- ===== src/Client.antt =====
-- crates/risepir-client: the pending delta of the response-rewind client, the rewind itself, and the
-- client that queries and decodes.
pub mod Pending
pub mod Rewind
pub mod Query
mod Tests
