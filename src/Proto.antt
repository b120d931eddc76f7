-- ===== src/Proto.antt =====
-- crates/risepir-proto: the wire primitives, the block-delta types and codec, the value codec.
pub mod Varint
pub mod Delta
pub mod Codec
pub mod Value
mod Tests
