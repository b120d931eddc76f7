-- ===== src/Client/Query/Tests.antt =====
-- Runs of the client over a small backend, and its theorems at concrete inputs.
use private_eth_getbalance_w.Prelude.{
  ℕ, ◌+◌, ◌*◌, ◌%◌, ◌^◌, ◌≡◌, refl, arith, List, [], ◌∷◌, ok, err, length, get_elem?, some,
}
use private_eth_getbalance_w.Prelude.Int.{pos, ◌+ℤ◌}
use private_eth_getbalance_w.Proto.Delta.{AddressHash, SegmentRowDeltas}
use private_eth_getbalance_w.Proto.Codec.{to_le_bytes}
use private_eth_getbalance_w.Proto.Value.{
  ValueCodec, found, not_found, decode, extract_key_tag, key_tag, judge, check_widths, checksum,
  fnv1a64, slice_to, read_bits, read_bits_loop, read_bit,
}
use private_eth_getbalance_w.Client.Pending.{
  ClientError, segment, row_range, new, response_block_mismatch,
}
use private_eth_getbalance_w.Client.Query.{
  Geometry, ClientBackend, QueryCtx, RisePirClient, ct_eq_u64_mask, or_masked, select_slot,
  select_slots, bucket_cells, correct_cells, check_rows, select_segments, lift, finish,
  collect_garbage, build_query, query_segments,
}
use private_eth_getbalance_w.Client.Query.Finish.{
  unpacked, gather, IsContext, IsOther, finish_not_found, finish_found,
}
use private_eth_getbalance_w.Client.Query.Garbage.{IsPatched, collect_garbage_total}

abbrev toy_hash : AddressHash → ℕ → ℕ
toy_hash addr seed = (addr * 2654435761 + seed) % 2 ^ 64

abbrev narrow : ValueCodec
narrow = record { key_tag_bits = 5; balance_bits = 9; checksum_bits = 4 }

abbrev split_slot : List ℕ → ℕ × List ℕ
split_slot [] = (0, [])
split_slot (fp ∷ value_bytes) = (fp, value_bytes)

abbrev toy_geometry : Geometry
toy_geometry = record {
  arity = 2;
  segment_size = 4;
  bucket_size = 1;
  cells_per_slot = 4;
  value_size_in_bytes = 3;
  plaintext_bits = 8;
  candidate_buckets = λ key. (key % 10 + 1, 2 ∷ 7 ∷ []);
  unpack_slot_cells = split_slot;
}

-- A response is the cells of a bucket; a state keeps the edits that it was patched by.
abbrev toy_backend : ClientBackend
toy_backend = record {
  ServerParams = ℕ;
  Hint = ℕ;
  ClientState = List SegmentRowDeltas;
  Query = ℕ;
  Response = List ℕ;
  client_setup = λ p h. [];
  client_patch_state = λ state rows. rows ∷ state;
  client_query = λ state row. (row, state);
  rewind_response = λ state query response m. ok response;
  client_decode = λ state response. response;
}

-- The pinned bucket has a 0x9d where the head has a 0x9e.
abbrev client : RisePirClient toy_backend
client = record {
  params = toy_geometry;
  states = [] ∷ [] ∷ [];
  pinned_block = 4;
  delta = record { per_segment = (((2, 1), pos 1) ∷ []) ∷ [] ∷ []; head = 5 };
  value_codec = narrow;
}

abbrev ctx : QueryCtx toy_backend
ctx = record { queries = 2 ∷ 3 ∷ []; rows = 2 ∷ 3 ∷ [] }

built : build_query toy_backend 7 client ≡ ok ((2 ∷ 3 ∷ [], ctx), client)
unfolding build_query query_segments
built = refl

abbrev resp : List (List ℕ)
resp = (8 ∷ 0x9d ∷ 0xa5 ∷ 0x03 ∷ []) ∷ (0 ∷ 0 ∷ 0 ∷ 0 ∷ []) ∷ []

gathered :
    gather toy_backend client ctx resp 2 0
    ≡ ok ((8, 0x9e ∷ 0xa5 ∷ 0x03 ∷ []) ∷ (0, 0 ∷ 0 ∷ 0 ∷ []) ∷ [])
unfolding gather bucket_cells segment correct_cells row_range unpacked ◌+ℤ◌
gathered = refl

context_rows : check_rows 4 (2 ∷ 3 ∷ []) (2 ∷ 7 ∷ []) 2 0 ≡ ok tt
unfolding check_rows
context_rows = refl

context : IsContext toy_hash toy_backend client 7 ctx resp
context = record { responses = refl; queries = refl; count = refl; rows = context_rows }

tag_7 : key_tag toy_hash narrow 7 ≡ 0x1e
unfolding key_tag
tag_7 = refl

reads :
    extract_key_tag {E = ClientError} narrow (0x9e ∷ 0xa5 ∷ 0x03 ∷ [])
    ≡ ok (key_tag toy_hash narrow 7)
unfolding extract_key_tag key_tag read_bits read_bits_loop read_bit
reads = refl

empty_tag : extract_key_tag {E = ClientError} narrow (0 ∷ 0 ∷ 0 ∷ []) ≡ ok 0
unfolding extract_key_tag read_bits read_bits_loop read_bit
empty_tag = refl

empty-IsOther :
    (key : AddressHash) → IsOther toy_hash toy_backend client key ctx resp (0, 0 ∷ 0 ∷ 0 ∷ [])
empty-IsOther key = (
  record { fingerprint = omega arith; stored = 0; small = omega arith; read = empty_tag },
  (λ m. omega (arith, m.0)),
)

finish_found_example :
    finish toy_hash toy_backend client 7 ctx resp 5
    ≡ lift (decode toy_hash narrow 7 (0x9e ∷ 0xa5 ∷ 0x03 ∷ []))
finish_found_example =
    finish_found toy_hash toy_backend client 7 ctx resp [] ((0, 0 ∷ 0 ∷ 0 ∷ []) ∷ [])
      (0x9e ∷ 0xa5 ∷ 0x03 ∷ []) context (omega arith) (omega (arith, tag_7)) gathered tt
      (empty-IsOther 7, tt) reads (omega arith, (omega arith, (omega arith, tt))) refl

finish_300 : finish toy_hash toy_backend client 7 ctx resp 5 ≡ ok (found 300)
unfolding finish check_rows select_segments bucket_cells segment correct_cells row_range
    select_slots select_slot or_masked ct_eq_u64_mask extract_key_tag key_tag decode judge
    check_widths checksum fnv1a64 slice_to read_bits read_bits_loop read_bit to_le_bytes ◌+ℤ◌
finish_300 = refl

abbrev blank : List (List ℕ)
blank = (0 ∷ 0 ∷ 0 ∷ 0 ∷ []) ∷ (0 ∷ 0 ∷ 0 ∷ 0 ∷ []) ∷ []

abbrev pinned : RisePirClient toy_backend
pinned = record client { delta = record { per_segment = [] ∷ [] ∷ []; head = 4 } }

context_blank : IsContext toy_hash toy_backend pinned 7 ctx blank
context_blank = record { responses = refl; queries = refl; count = refl; rows = context_rows }

gathered_blank :
    gather toy_backend pinned ctx blank 2 0 ≡ ok ((0, 0 ∷ 0 ∷ 0 ∷ []) ∷ (0, 0 ∷ 0 ∷ 0 ∷ []) ∷ [])
unfolding gather bucket_cells segment correct_cells row_range unpacked
gathered_blank = refl

finish_not_found_example : finish toy_hash toy_backend pinned 7 ctx blank 4 ≡ ok not_found
finish_not_found_example =
    finish_not_found toy_hash toy_backend pinned 7 ctx blank
      ((0, 0 ∷ 0 ∷ 0 ∷ []) ∷ (0, 0 ∷ 0 ∷ 0 ∷ []) ∷ []) context_blank (omega arith)
      (omega (arith, tag_7)) gathered_blank (empty-IsOther 7, (empty-IsOther 7, tt))

late : finish toy_hash toy_backend client 7 ctx resp 6 ≡ err (response_block_mismatch 5 6)
unfolding finish
late = refl

collect_garbage_total_example :
    (states : List (List SegmentRowDeltas)) × (collect_garbage toy_backend 5 client
      ≡ ok (record client { states = states; pinned_block = 5; delta = new 2 5 }))
    × (length states ≡ 2)
    × ((j : ℕ) (state : List SegmentRowDeltas)
        → get_elem? client.states j ≡ some state
        → IsPatched toy_backend client.delta j states j state)
collect_garbage_total_example =
    collect_garbage_total toy_backend client ((tt, tt), (tt, tt)) refl (λ e. omega (arith, e))
