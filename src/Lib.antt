-- ===== src/Lib.antt =====
-- A verification library for the private eth_getBalance service: a client that keeps a hint of a
-- PIR database, follows the chain by public block deltas, and reads balances without revealing
-- which. The parts that are modelled are the ones that all answers pass through:
--
--   * Proto.Varint   crates/risepir-proto/src/codec.rs: `write_uvarint`, `read_uvarint`, zigzag,
--                    `uvarint_len`, `check_count`.
--   * Proto.Delta    crates/risepir-proto/src/types.rs: `BlockDelta` and `BlockDelta::coalesce`.
--   * Proto.Codec    crates/risepir-proto/src/codec.rs: `encode_block_delta`, `decode_block_delta`,
--                    `encoded_len`, `encode_u32s`, `read_u32s`, `decode_u32s`.
--   * Proto.Value    crates/risepir-proto/src/value.rs: the `ValueCodec` of the slots.
--   * Server.DeltaRing  crates/risepir-server/src/delta_ring.rs: the window of recent deltas, whose
--                    `range` coalesces with Proto.Delta.
--   * Server.Verified  crates/risepir-server/src/verified.rs: `locate`, the scan that tells whether a
--                    key-addressed write is safe, and the verified read `get`, over the value codec.
--   * Server.Fold    crates/risepir-server/src/fold.rs: `fold_mutations_into_row_deltas`.
--   * Server.RisePir crates/risepir-server/src/server.rs: `RisePirServer`, with `new`, `from_parts`,
--                    `apply_change`, `balance_of`, `apply_block_reporting`, `setup`, `answer` and
--                    `full_rebuild`. It uses locate, the fold, the value codec and the ring.
--   * Client.Pending crates/risepir-client/src/delta.rs: `PendingDelta`, which ingests deltas one
--                    block at a time, or a coalesced span of them.
--   * Client.Rewind  crates/risepir-client/src/rewind.rs: the two `rewind_response`, which take the
--                    pending delta's part out of a response.
--   * Client.Query   crates/risepir-client/src/client.rs: `RisePirClient`, with `from_setup`,
--                    `ingest_delta`, `collect_garbage`, `build_query` and `finish`.
--   * Http.Wire      crates/risepir-http/src/wire.rs: the query and response bundles, and in
--                    Http.Wire.Setup the set-up bundle, over the u32 vectors of Proto.Codec.
--   * Rpc.Journal    crates/risepir-rpc/src/journal.rs: `JournalReader`, `scan_report_only` and
--                    `JournalWriter`, over the block delta codec.
--   * Sync           the parts together: Sync.Blocks takes a client through the blocks of a server,
--                    Sync.Wire through the ring and the codec, Sync.Row, Sync.Bucket and
--                    Sync.Current from the decoded cells of a bucket to its cells at the head, and
--                    Sync.Slots, Sync.Gather and Sync.Lookup from these to the answer of `finish`.
--
-- The server applies a block to its store by verified writes, folds the writes into a delta,
-- patches its hints by it, and pushes it into the ring; it serves coalesced ranges of the ring,
-- which the codec carries, and a journal on disk keeps the deltas since the last saved state. The
-- client ingests the deltas, rewinds the responses it gets by their sums, and selects its slot of
-- the decoded buckets. The cell sums of Proto.Delta.Sums (`segments_at`, `run_at`) are the common
-- specification of these. Server.Fold.Replay and Server.RisePir.Apply.Difference compare them with
-- the store's cells before and after a block, under the law `LogsWrites` on the third-party store:
-- with its log on, the log has the old and the new cells of every slot that is written. Prelude
-- holds what the parts share: lists over the native numbers, `Outcome` (a value, an error, or a
-- panic), integers with their i64 range, bits, and ordered association lists for `BTreeMap`.
--
-- Conventions. Machine integers are natural numbers or integers with the wrap-around written out;
-- the build is a release build, where `debug_assert!` does nothing and u64 counters wrap. A
-- decoder's cursor `(bytes, pos)` is the list of the bytes from `pos` on. Indexing out of bounds
-- is `panic`. An address hash is a number; the third-party hash xxh3 is a parameter of
-- Proto.Value, and the cuckoo store, the geometry and the PIR backend are records of operations
-- that the server and the client take as parameters. A backend's setup samples a fresh seed at each
-- call: construction and rebuild take what is drawn for each segment as an argument. The varint
-- loops recurse on the accessibility of `<` (the value shrinks) or on the input. Only the scan of
-- a journal runs on fuel: one step for each remaining byte and one more, which is enough since
-- every record takes bytes. Loops over a declared count recurse on that count, which the code has
-- bounded before.
--
-- Not modelled: the PIR backends and the cuckoo store (third-party crates), the transport, the
-- chain feed, the state file and the loops of the JSON-RPC service, the browser client, tooling,
-- the measured times, the digest of `lineage_epoch`, the texts of the errors, the failures of
-- reads and writes of files that are there, and the capacities of vectors.
pub mod Prelude
pub mod Proto
pub mod Server
pub mod Client
pub mod Http
pub mod Rpc
pub mod Sync
