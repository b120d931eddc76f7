-- ===== src/Sync.antt =====
-- The server, the delta format and the client together: what a client that follows the server's blocks
-- holds, by crates/risepir-server/src/server.rs, crates/risepir-server/src/delta_ring.rs,
-- crates/risepir-proto/src/codec.rs and crates/risepir-client/src/delta.rs and client.rs.
pub mod Blocks
pub mod Wire
pub mod Row
pub mod Bucket
pub mod Current
pub mod Slots
pub mod Gather
pub mod Lookup
mod Toy
mod Tests
