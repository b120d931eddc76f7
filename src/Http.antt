-- ===== src/Http.antt =====
-- crates/risepir-http: the wire format of the bundles between a node and its clients.
pub mod Wire
