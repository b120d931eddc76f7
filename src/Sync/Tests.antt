-- ===== src/Sync/Tests.antt =====
-- A server over a small store and a client that follows it, and the theorems at concrete inputs.
mod Lookup
use private_eth_getbalance_w.Prelude.{
  ℕ, suc, zero, ◌+◌, ◌*◌, ◌/◌, ◌%◌, ◌^◌, ◌≡◌, refl, List, [], ◌∷◌, ◌++◌, ok, length, get_or,
  get_elem?, some, All, map, if◌then◌else◌, ◌==◌, arith,
}
use private_eth_getbalance_w.Prelude.Maps.{get, insert}
use private_eth_getbalance_w.Prelude.Int.{ℤ, pos, negsuc, sub_ℕ, ◌+ℤ◌}
use private_eth_getbalance_w.Proto.Delta.{
  AddressHash, BlockUpdate, BlockDelta, SegmentRowDeltas, emit_rows, nonzero_cells,
}
use private_eth_getbalance_w.Proto.Delta.Sums.{segments_at}
use private_eth_getbalance_w.Proto.Codec.{to_le_bytes}
use private_eth_getbalance_w.Proto.Value.{
  ValueCodec, encode, decode, extract_key_tag, key_tag, judge, check_widths, fits_balance_bits,
  checksum, fnv1a64, slice_to, read_bits, read_bits_loop, read_bit, write_bits, write_bits_loop,
  write_bit,
}
use private_eth_getbalance_w.Server.Verified.{
  locate, scan_buckets, scan_bucket, scan_slot, tagged_slot,
}
use private_eth_getbalance_w.Server.Fold.{
  add_entry, add_nonzero, fold_cells, fold_mutation, fold_loop, fold_mutations_into_row_deltas,
}
use private_eth_getbalance_w.Server.RisePir.{
  BlockApplyReport, Backend, RisePirServer, delete_located, write_located, dispatch, apply_change,
  apply_changes, apply_credits,
}
use private_eth_getbalance_w.Server.RisePir.Apply.{
  row_cells, count_cells, patch_hint, patch_hints, apply_updates, finish_block, conclude_block,
  apply_block_reporting,
}
use private_eth_getbalance_w.Server.RisePir.Apply.Difference.{IsFresh, apply_block_difference}
use private_eth_getbalance_w.Client.Pending.{
  PendingMap, PendingDelta, new, ingest, ingest_segments, ingest_rows, ingest_cells, ingest_cell,
  write_vacant, write_occupied, row_range,
}
use private_eth_getbalance_w.Client.Pending.Sums.{pending_at}
use private_eth_getbalance_w.Client.Pending.Invariant.{IsPending}
use private_eth_getbalance_w.Client.Pending.Ingest.{ingest_all}
use private_eth_getbalance_w.Client.Query.{
  ClientBackend, QueryCtx, RisePirClient, bucket_cells, correct_cells,
}
use private_eth_getbalance_w.Proto.Varint.{
  write_uvarint, read_uvarint, zigzag_encode, zigzag_decode, check_count,
}
use private_eth_getbalance_w.Proto.Codec.{
  encode_block_delta, decode_block_delta, from_le_bytes, write_segments, write_rows, write_cells,
  sort_by_key, insert_sorted, read_segments, read_rows, read_cells, next_index,
}
use private_eth_getbalance_w.Proto.Delta.Sums.{run_at}
use private_eth_getbalance_w.Prelude.{take, drop, Bool-cases, inl, inr}
use private_eth_getbalance_w.Proto.Value.{found}
use private_eth_getbalance_w.Server.Verified.{own}
use private_eth_getbalance_w.Server.Verified.Found.{probes, slots_from}
use private_eth_getbalance_w.Client.Query.{check_rows, finish}
use private_eth_getbalance_w.Client.Query.Finish.{IsContext}
use private_eth_getbalance_w.Sync.Slots.{IsStored}
use private_eth_getbalance_w.Sync.Gather.{Unpacks, Agrees}
use private_eth_getbalance_w.Sync.Lookup.{IsProbe, synced_lookup}
use private_eth_getbalance_w.Sync.Wire.{window_at, synced_range}
use private_eth_getbalance_w.Proto.Delta.{
  coalesce, check_run, add_cells, add_rows, add_segments, add_deltas,
}
use private_eth_getbalance_w.Prelude.Int.{checked_add}
use private_eth_getbalance_w.Server.DeltaRing.{DeltaRing, select, range}
use private_eth_getbalance_w.Proto.Codec.RoundTrip.{IsEncodable}
use private_eth_getbalance_w.Sync.Blocks.{Blocks, none_more, next_block, synced_difference}
use private_eth_getbalance_w.Sync.Current.{HoldsCells, IsRewound, synced_cells}
use private_eth_getbalance_w.Server.RisePir.Setup.Restart.{IsServer}
use private_eth_getbalance_w.Server.RisePir.Apply.Completes.{apply_block_completes}
use private_eth_getbalance_w.Sync.Toy.{
  table-IsInside, toy_params, Table, table_cells, table, IsOn, table-LogsWrites, toy_fp,
}

abbrev toy_hash : AddressHash → ℕ → ℕ
toy_hash addr seed = (addr * 2654435761 + seed) % 2 ^ 64

abbrev narrow : ValueCodec
narrow = record { key_tag_bits = 5; balance_bits = 9; checksum_bits = 4 }

-- A backend whose parameters are drawn, and whose hints are the patches that they went through.
abbrev toy_backend : Backend
toy_backend = record {
  Seed = ℕ;
  Config = Unit;
  ServerParams = ℕ;
  HintMaterial = ℕ;
  Hint = List SegmentRowDeltas;
  Query = ℕ;
  Response = ℕ × List ℕ;
  server_setup = λ seed config segment rows width bits. (width + seed, width + seed + 1, []);
  expand_hint_material = λ sp. sp + 1;
  server_patch_hint = λ sp material hint deltas. hint ++ (deltas ∷ []);
  server_answer = λ sp segment rows width query. (query, segment);
}

abbrev start : RisePirServer Table toy_backend
start = record {
  store = ((λ b o. 0), []);
  params = toy_params;
  backend_config = tt;
  backend_params = 4 ∷ 4 ∷ [];
  material = 5 ∷ 5 ∷ [];
  hints = [] ∷ [] ∷ [];
  block = 4;
  value_codec = narrow;
}

abbrev fifth : BlockUpdate
fifth = record { block = 5; changes = (7, 300) ∷ (8, 0) ∷ []; credits = [] }

abbrev edits : SegmentRowDeltas
edits = (0, (0, pos 8) ∷ (1, pos 0x9e) ∷ (2, pos 0xa5) ∷ (3, pos 3) ∷ []) ∷ []

abbrev fifth_delta : BlockDelta
fifth_delta = record { block = 5; per_segment = edits ∷ [] ∷ [] }

abbrev fifth_report : BlockApplyReport
fifth_report = record {
  inserts = 1;
  updates = 0;
  deletes = 0;
  noop_deletes = 1;
  changes = 2;
  credits = 0;
  touched_cells = 4;
}

abbrev stored : List ℕ
stored = 8 ∷ 0x9e ∷ 0xa5 ∷ 3 ∷ []

abbrev after : RisePirServer Table toy_backend
after = record start {
  store = ((λ b o. if b == 0 then get_or stored o 0 else 0), []);
  hints = (edits ∷ []) ∷ [] ∷ [];
  block = 5;
}

run_fifth :
    apply_block_reporting toy_hash table fifth start ≡ (ok (fifth_delta, fifth_report), after)
unfolding apply_block_reporting apply_updates apply_changes apply_change dispatch write_located
    delete_located apply_credits conclude_block finish_block patch_hints patch_hint row_cells
    count_cells fold_mutations_into_row_deltas fold_loop fold_mutation fold_cells add_nonzero
    add_entry emit_rows nonzero_cells get insert locate scan_buckets scan_bucket scan_slot
    tagged_slot extract_key_tag encode key_tag decode judge check_widths fits_balance_bits checksum
    fnv1a64 slice_to read_bits read_bits_loop read_bit write_bits write_bits_loop write_bit
    to_le_bytes
run_fifth = refl

start-IsFresh : IsFresh table IsOn start.store
start-IsFresh = record { logging = tt; empty = refl }

apply_block_difference_example :
    ((bucket offset : ℕ)
      → segments_at (bucket / 1) (bucket % 1) offset fifth_delta.per_segment
        ≡ sub_ℕ (table_cells after.store bucket offset) (table_cells start.store bucket offset))
    × IsFresh table IsOn after.store
    × (after.params ≡ toy_params)
apply_block_difference_example =
    apply_block_difference toy_hash table toy_params table_cells IsOn table-LogsWrites fifth start
      after fifth_delta fifth_report refl start-IsFresh run_fifth

applied : Blocks toy_hash table toy_backend start (fifth_delta ∷ []) after
applied = next_block fifth start after after fifth_delta fifth_report [] run_fifth (none_more after)

abbrev followed : PendingDelta
followed = record {
  per_segment =
      (((0, 0), pos 8) ∷ ((0, 1), pos 0x9e) ∷ ((0, 2), pos 0xa5) ∷ ((0, 3), pos 3) ∷ []) ∷ [] ∷ [];
  head = 5;
}

follow : ingest_all (fifth_delta ∷ []) (new 2 4) ≡ (followed, ok tt)
unfolding ingest_all new ingest ingest_segments ingest_rows ingest_cells ingest_cell write_vacant
    write_occupied get insert
follow = refl

synced_difference_example :
    ((bucket offset : ℕ)
      → pending_at (bucket / 1) (bucket % 1) offset followed.per_segment
        ≡ sub_ℕ (table_cells after.store bucket offset) (table_cells start.store bucket offset))
    × All IsPending followed.per_segment
    × (length followed.per_segment ≡ 2)
synced_difference_example =
    synced_difference toy_hash table toy_params table_cells IsOn table-LogsWrites start after
      (fifth_delta ∷ []) 4 followed refl start-IsFresh applied follow

-- The delta of a block that the client has already.
abbrev fourth_delta : BlockDelta
fourth_delta = record { block = 4; per_segment = ((0, (0, pos 100) ∷ []) ∷ []) ∷ [] ∷ [] }

abbrev ring : DeltaRing
ring = record { capacity = 2; buf = fourth_delta ∷ fifth_delta ∷ [] }

range_4_5 : range 4 5 ring ≡ some fifth_delta
unfolding range select coalesce check_run add_deltas add_segments add_rows add_cells emit_rows
    nonzero_cells get insert checked_add ◌+ℤ◌
range_4_5 = refl

fifth-IsEncodable : IsEncodable 8 fifth_delta
fifth-IsEncodable = record {
  bits = (omega arith, omega arith);
  block = omega arith;
  arity = omega arith;
  segments = (
    (
      omega arith,
      (
        (
          omega arith,
          omega arith,
          (
            (omega arith, omega arith),
            (
              (omega arith, omega arith),
              ((omega arith, omega arith), ((omega arith, omega arith), tt)),
            ),
          ),
        ),
        tt,
      ),
    ),
    ((omega arith, tt), tt),
  );
}

abbrev message : List ℕ
message =
    0x52 ∷ 0x50 ∷ 0x44 ∷ 0x31 ∷ 5 ∷ 0 ∷ 0 ∷ 0 ∷ 0 ∷ 0 ∷ 0 ∷ 0 ∷ 2 ∷ 1 ∷ 0 ∷ 4 ∷ 0 ∷ 16 ∷ 1 ∷ 188 ∷ 2
    ∷ 1 ∷ 202 ∷ 2 ∷ 1 ∷ 6 ∷ 0 ∷ []

encode_fifth : encode_block_delta fifth_delta ≡ ok message
unfolding encode_block_delta write_uvarint zigzag_encode write_segments write_rows write_cells
    sort_by_key insert_sorted to_le_bytes
encode_fifth = refl

decode_fifth : decode_block_delta message 8 2 ≡ ok fifth_delta
unfolding decode_block_delta read_uvarint zigzag_decode check_count read_segments read_rows
    read_cells next_index from_le_bytes
decode_fifth = refl

ingest_fifth : ingest fifth_delta (new 2 4) ≡ (followed, ok tt)
unfolding new ingest ingest_segments ingest_rows ingest_cells ingest_cell write_vacant
    write_occupied get insert
ingest_fifth = refl

synced_range_example :
    ((s r o : ℕ)
      → pending_at s r o followed.per_segment
        ≡ pending_at s r o (new 2 4).per_segment +ℤ window_at 4 5 s r o ring.buf)
    × (followed.head ≡ 5)
synced_range_example =
    synced_range 4 5 8 ring fifth_delta fifth_delta message (new 2 4) followed range_4_5
      fifth-IsEncodable encode_fifth decode_fifth ingest_fifth

start-IsServer : IsServer table toy_backend start
start-IsServer = record {
  params = refl;
  widths = refl;
  backend = refl;
  hints = refl;
  material = refl;
}

abbrev fifth_counts : BlockApplyReport
fifth_counts = record fifth_report { changes = 0; touched_cells = 0 }

update_fifth : (apply_updates toy_hash table fifth start).0 ≡ ok fifth_counts
unfolding apply_updates apply_changes apply_change dispatch write_located delete_located
    apply_credits locate scan_buckets scan_bucket scan_slot tagged_slot extract_key_tag encode
    key_tag decode judge check_widths fits_balance_bits checksum fnv1a64 slice_to read_bits
    read_bits_loop read_bit write_bits write_bits_loop write_bit to_le_bytes
update_fifth = refl

apply_block_completes_example :
    (delta : BlockDelta) × (report : BlockApplyReport) × (server : RisePirServer Table toy_backend)
    × (apply_block_reporting toy_hash table fifth start ≡ (ok (delta, report), server))
    × (delta.block ≡ 5)
    × (server.block ≡ 5)
apply_block_completes_example =
    apply_block_completes toy_hash table toy_backend fifth start fifth_counts start-IsServer
      table-IsInside refl (omega arith) update_fifth
