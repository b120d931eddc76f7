-- ===== src/Client/Query.antt =====
-- crates/risepir-client/src/client.rs: the client that queries, rewinds, decodes and selects without a
-- branch on a secret. The PIR backend and the geometry of the cuckoo store are third-party code and
-- stand as records of operations; the observer of the timings is left out.
pub mod Mask
pub mod Select
pub mod Finish
pub mod Garbage
mod Tests
use private_eth_getbalance_w.Prelude.{
  ℕ, zero, suc, ◌+◌, ◌-◌, ◌*◌, ◌/◌, ◌%◌, ◌^◌, bit_and, bit_or, bit_xor, List, [], ◌∷◌, map, not,
  Option, none, some,
}
use private_eth_getbalance_w.Prelude.{
  Outcome, ok, err, panic, ◌>>=◌, ◌>>◌, guard, or_panic, get_elem?, set, length, replicate, take,
  drop, leb, ltb, ◌==◌, ◌||◌, ◌&&◌, if◌then◌else◌,
}
use private_eth_getbalance_w.Prelude.Int.{ℤ, pos, negsuc, ◌+ℤ◌}
use private_eth_getbalance_w.Proto.Delta.{AddressHash, BlockDelta, Cells, SegmentRowDeltas}
use private_eth_getbalance_w.Proto.Value.{
  ValueCodec, Lookup, not_found, key_tag, extract_key_tag, decode,
}
use private_eth_getbalance_w.Client.Pending.{
  ClientError, gc_target_mismatch, malformed_response, response_block_mismatch,
  key_context_mismatch, cell_out_of_range, PendingMap, PendingDelta, new, ingest, as_row_deltas,
  segment, row_range,
}

-- What is used of the geometry: `candidate_buckets` gives a key's fingerprint and buckets, and
-- `unpack_slot_cells` the fingerprint and the value bytes in the cells of a slot.
pub record Geometry : Type 0 where
  pub arity : ℕ
  pub segment_size : ℕ
  pub bucket_size : ℕ
  pub cells_per_slot : ℕ
  pub value_size_in_bytes : ℕ
  pub plaintext_bits : ℕ
  pub candidate_buckets : AddressHash → ℕ × List ℕ
  pub unpack_slot_cells : List ℕ → ℕ × List ℕ

-- What is used of a PIR backend. A rewind may panic.
pub record ClientBackend : Type 1 where
  pub ServerParams : Type 0
  pub Hint : Type 0
  pub ClientState : Type 0
  pub Query : Type 0
  pub Response : Type 0
  pub client_setup : ServerParams → Hint → ClientState
  pub client_patch_state : ClientState → SegmentRowDeltas → ClientState
  pub client_query : ClientState → ℕ → Query × ClientState
  pub rewind_response : ClientState → Query → Response → PendingMap → Outcome ClientError Response
  pub client_decode : ClientState → Response → List ℕ

pub record QueryCtx (b : ClientBackend) : Type 0 where
  pub queries : List b.Query
  pub rows : List ℕ

pub record RisePirClient (b : ClientBackend) : Type 0 where
  pub params : Geometry
  pub states : List b.ClientState
  pub pinned_block : ℕ
  pub delta : PendingDelta
  pub value_codec : ValueCodec

-- All ones where the numbers are equal, 0 where they are not, on u64s.
unfoldable pub ct_eq_u64_mask : ℕ → ℕ → ℕ
ct_eq_u64_mask a b =
    let x = bit_xor a b in (bit_or x ((2 ^ 64 - x) % 2 ^ 64) / 2 ^ 63 + 2 ^ 64 - 1) % 2 ^ 64

-- `acc |= mask8 & value_bytes`, byte by byte as far as both go.
unfoldable pub or_masked : ℕ → List ℕ → List ℕ → List ℕ
or_masked mask8 [] value_bytes = []
or_masked mask8 (a ∷ acc) [] = a ∷ acc
or_masked mask8 (a ∷ acc) (v ∷ value_bytes) =
    bit_or a (bit_and mask8 v) ∷ or_masked mask8 acc value_bytes

-- The variables of the selection.
pub record Selection : Type 0 where
  pub acc : List ℕ
  pub found_mask : ℕ

-- `cells[start..start + n]`
abbrev pub slice : {E : Type 0} → List ℕ → ℕ → ℕ → Outcome E (List ℕ)
slice xs start n = if leb (start + n) (length xs) then ok (take n (drop start xs)) else panic

-- One candidate slot.
unfoldable pub select_slot :
    ValueCodec → ℕ → ℕ → ℕ × List ℕ → Selection → Outcome ClientError Selection
select_slot value_codec fp tag (decoded_fp, value_bytes) s = do
  stored ← extract_key_tag value_codec value_bytes
  let mask = bit_and (ct_eq_u64_mask decoded_fp fp) (ct_eq_u64_mask stored tag)
  ok (record {
    acc = or_masked (bit_and mask 0xff) s.acc value_bytes;
    found_mask = bit_or s.found_mask mask;
  })

-- The slots of a bucket's cells from `s` on, `left` of them.
unfoldable pub select_slots :
    Geometry → ValueCodec → ℕ → ℕ → List ℕ → ℕ → ℕ → Selection → Outcome ClientError Selection
select_slots params value_codec fp tag cells zero s selection = ok selection
select_slots params value_codec fp tag cells (suc left) s selection = do
  slot ← slice cells (s * params.cells_per_slot) params.cells_per_slot
  selection ← select_slot value_codec fp tag (params.unpack_slot_cells slot) selection
  select_slots params value_codec fp tag cells left (s + 1) selection

-- `corrected as u32`, of a value that is in range.
abbrev pub corrected_cell : ℕ → ℤ → Option ℕ
corrected_cell bound (negsuc n) = none
corrected_cell bound (pos n) = if ltb n bound then some n else none

abbrev pub store_corrected : ClientError → List ℕ → ℕ → Option ℕ → Outcome ClientError (List ℕ)
store_corrected e cells idx none = err e
store_corrected e cells idx (some v) = ok (set cells idx v)

abbrev pub correct_found :
    ℕ → ClientError → List ℕ → ℕ → ℤ → Option ℕ → Outcome ClientError (List ℕ)
correct_found bound e cells idx delta none = err e
correct_found bound e cells idx delta (some cell) =
    store_corrected e cells idx (corrected_cell bound (pos cell +ℤ delta))

-- `cells += ΔD[row]`
unfoldable pub correct_cells : ℕ → ℕ → ℕ → Cells → List ℕ → Outcome ClientError (List ℕ)
correct_cells bound j row [] cells = ok cells
correct_cells bound j row ((offset, delta) ∷ deltas) cells = do
  cells ←
      correct_found bound (cell_out_of_range j row offset) cells offset delta
        (get_elem? cells offset)
  correct_cells bound j row deltas cells

-- A result that has no errors, where errors are possible.
abbrev pub lift : {A : Type 0} → Outcome ⊥ A → Outcome ClientError A
lift (ok a) = ok a
lift (err e) = absurd e
lift panic = panic

-- The row of a bucket within its segment.
abbrev pub row_of : ℕ → ℕ → Outcome ClientError ℕ
row_of segment_size index = if segment_size == 0 then panic else ok (index % segment_size)

-- `ctx.rows[j] != indices[j] % segment_size`, for the segments from `j` on.
unfoldable pub check_rows : ℕ → List ℕ → List ℕ → ℕ → ℕ → Outcome ClientError (Unit {0})
check_rows segment_size rows indices zero j = ok tt
check_rows segment_size rows indices (suc left) j = do
  row ← or_panic (get_elem? rows j)
  index ← or_panic (get_elem? indices j)
  expected ← row_of segment_size index
  guard (row == expected) key_context_mismatch
  check_rows segment_size rows indices left (j + 1)

module _ (b : ClientBackend) where
  -- `client_setup` of the parameters zipped with the hints.
  abbrev pub setup_states : List b.ServerParams → List b.Hint → List b.ClientState
  setup_states [] hints = []
  setup_states (p ∷ ps) [] = []
  setup_states (p ∷ ps) (h ∷ hints) = b.client_setup p h ∷ setup_states ps hints

  -- `from_setup`, of the fields of the bundle.
  unfoldable pub from_setup :
      Geometry → List b.ServerParams → List b.Hint → ℕ → ValueCodec → RisePirClient b
  from_setup params backend_params hints block value_codec = record {
    params = params;
    states = setup_states backend_params hints;
    pinned_block = block;
    delta = new params.arity block;
    value_codec = value_codec;
  }

  unfoldable pub ingest_delta :
      BlockDelta → RisePirClient b → RisePirClient b × Outcome ClientError (Unit {0})
  ingest_delta d client =
      let (delta, result) = ingest d client.delta in (record client { delta = delta }, result)

  -- A segment without a pending edit keeps its state.
  abbrev pub patch_state : SegmentRowDeltas → b.ClientState → b.ClientState
  patch_state [] state = state
  patch_state (row ∷ rows) state = b.client_patch_state state (row ∷ rows)

  -- The states from segment `j` on.
  unfoldable pub patch_states :
      PendingDelta → ℕ → List b.ClientState → Outcome ClientError (List b.ClientState)
  patch_states delta j [] = ok []
  patch_states delta j (state ∷ states) = do
    m ← segment delta j
    rest ← patch_states delta (j + 1) states
    ok (patch_state (as_row_deltas m) state ∷ rest)

  -- An error leaves the client as it was.
  unfoldable pub collect_garbage : ℕ → RisePirClient b → Outcome ClientError (RisePirClient b)
  collect_garbage upto client =
      if not (upto == client.delta.head)
      then err (gc_target_mismatch client.delta.head upto)
      else if upto == client.pinned_block
      then ok client
      else do
        states ← patch_states client.delta 0 client.states
        ok (record client {
          states = states;
          pinned_block = upto;
          delta = new (length client.states) upto;
        })

  -- The queries of the segments from `j` on, with the rows and the states after them.
  unfoldable pub query_segments :
      ℕ
      → List ℕ
      → ℕ
      → ℕ
      → List b.ClientState
      → Outcome ClientError (List b.Query × List ℕ × List b.ClientState)
  query_segments segment_size indices zero j states = ok ([], [], states)
  query_segments segment_size indices (suc left) j states = do
    index ← or_panic (get_elem? indices j)
    row ← row_of segment_size index
    state ← or_panic (get_elem? states j)
    let (query, state) = b.client_query state row
    (queries, rows, states) ← query_segments segment_size indices left (j + 1) (set states j state)
    ok (query ∷ queries, row ∷ rows, states)

  -- The queries to send are those of the context.
  unfoldable pub build_query :
      AddressHash
      → RisePirClient b
      → Outcome ClientError ((List b.Query × QueryCtx b) × RisePirClient b)
  build_query key client = do
    (queries, rows, states) ←
        query_segments client.params.segment_size (client.params.candidate_buckets key).1
          client.params.arity 0 client.states
    ok ((queries, record { queries = queries; rows = rows }), record client { states = states })

  -- Steps 2 to 4 for segment j: rewind, decode, and bring the bucket up to the head.
  unfoldable pub bucket_cells :
      RisePirClient b → QueryCtx b → List b.Response → ℕ → Outcome ClientError (List ℕ)
  bucket_cells client ctx resp j = do
    state ← or_panic (get_elem? client.states j)
    query ← or_panic (get_elem? ctx.queries j)
    response ← or_panic (get_elem? resp j)
    m ← segment client.delta j
    response ← b.rewind_response state query response m
    row ← or_panic (get_elem? ctx.rows j)
    correct_cells (2 ^ client.params.plaintext_bits) j row (row_range row m)
        (b.client_decode state response)

  -- The segments from `j` on, `left` of them.
  unfoldable pub select_segments :
      RisePirClient b
      → QueryCtx b
      → List b.Response
      → ℕ
      → ℕ
      → ℕ
      → ℕ
      → Selection
      → Outcome ClientError Selection
  select_segments client ctx resp fp tag zero j selection = ok selection
  select_segments client ctx resp fp tag (suc left) j selection = do
    cells ← bucket_cells client ctx resp j
    selection ←
        select_slots client.params client.value_codec fp tag cells client.params.bucket_size 0
          selection
    select_segments client ctx resp fp tag left (j + 1) selection

module _ (xxh3_64_with_seed : AddressHash → ℕ → ℕ) where
  -- What is made of the selection.
  abbrev pub conclude : ValueCodec → AddressHash → Selection → Outcome ClientError Lookup
  conclude value_codec key s =
      if s.found_mask == 0
      then ok not_found
      else lift (decode xxh3_64_with_seed value_codec key s.acc)

module _ (xxh3_64_with_seed : AddressHash → ℕ → ℕ) (b : ClientBackend) where
  -- `finish_observed`
  unfoldable pub finish :
      RisePirClient b → AddressHash → QueryCtx b → List b.Response → ℕ → Outcome ClientError Lookup
  finish client key ctx resp at_block = do
    let arity = client.params.arity
    let (fp, indices) = client.params.candidate_buckets key
    guard (length resp == arity && (length ctx.queries == arity && length ctx.rows == arity))
        (malformed_response arity (length resp))
    guard (at_block == client.delta.head) (response_block_mismatch client.delta.head at_block)
    check_rows client.params.segment_size ctx.rows indices arity 0
    selection ←
        select_segments b client ctx resp fp (key_tag xxh3_64_with_seed client.value_codec key)
          arity 0 (record { acc = replicate client.params.value_size_in_bytes 0; found_mask = 0 })
    conclude xxh3_64_with_seed client.value_codec key selection
