-- ===== src/Server/RisePir/Tests.antt =====
-- Runs of the server over a small store, and its theorems at concrete inputs.
use private_eth_getbalance_w.Prelude.{
  ℕ, suc, ◌+◌, ◌*◌, ◌%◌, ◌^◌, ◌≡◌, refl, List, [], ◌∷◌, ◌++◌, ok, err, length, get_or, get_elem?,
  set, if◌then◌else◌, ◌==◌, arith, some, ◌≤◌, ◌<◌, ◌≢◌, ◌⊎◌, All,
}
use private_eth_getbalance_w.Prelude.Maps.{get, insert}
use private_eth_getbalance_w.Prelude.Int.{pos}
use private_eth_getbalance_w.Proto.Delta.{
  AddressHash, BlockUpdate, BlockDelta, SegmentRowDeltas, emit_rows, nonzero_cells,
}
use private_eth_getbalance_w.Proto.Codec.{to_le_bytes}
use private_eth_getbalance_w.Proto.Value.{
  ValueCodec, balance_overflow, encode, decode, extract_key_tag, key_tag, judge, check_widths,
  fits_balance_bits, checksum, fnv1a64, slice_to, read_bits, read_bits_loop, read_bit, write_bits,
  write_bits_loop, write_bit,
}
use private_eth_getbalance_w.Server.Verified.{
  locate, scan_buckets, scan_bucket, scan_slot, tagged_slot,
}
use private_eth_getbalance_w.Server.Fold.{
  SlotMutation, CuckooParams, add_entry, add_nonzero, fold_cells, fold_mutation, fold_loop,
  fold_mutations_into_row_deltas,
}
use private_eth_getbalance_w.Server.RisePir.{
  encode_error, non_monotonic_block, malformed_query, kind_delete, BlockApplyReport, Cuckoo,
  Backend, RisePirServer, delete_located, write_located, dispatch, apply_change, apply_changes,
  apply_credits,
}
use private_eth_getbalance_w.Server.RisePir.Apply.{
  row_cells, count_cells, patch_hint, patch_hints, apply_updates, finish_block, conclude_block,
  reject_block, apply_block_reporting,
}
use private_eth_getbalance_w.Proto.Delta.Canonical.{IsCanonical}
use private_eth_getbalance_w.Server.RisePir.Apply.Epoch.{
  IsUntouched, apply_block-IsUntouched, apply_block-IsCanonical, apply_block-Patched,
}
use private_eth_getbalance_w.Server.RisePir.Hints.{Patched}
use private_eth_getbalance_w.Server.RisePir.Dispatch.{IsVerified, apply_change-IsVerified}
use private_eth_getbalance_w.Server.RisePir.Geometry.{IsLawful}
use private_eth_getbalance_w.Server.RisePir.Setup.{
  setup_segments, logged, new, from_parts, full_rebuild, answer,
}
use private_eth_getbalance_w.Server.RisePir.Setup.Rebuild.{IsExpandable}
use private_eth_getbalance_w.Server.RisePir.Setup.Restart.{
  IsServer, Reachable, built, applied, Reachable-IsServer, from_parts-setup,
}
use private_eth_getbalance_w.Server.RisePir.Setup.Answer.{IsResponse, answer_total}

abbrev toy_hash : AddressHash → ℕ → ℕ
toy_hash addr seed = (addr * 2654435761 + seed) % 2 ^ 64

abbrev narrow : ValueCodec
narrow = record { key_tag_bits = 5; balance_bits = 9; checksum_bits = 4 }

-- A store of two buckets of one slot, with its mutation log.
abbrev Slots : Type 0
Slots = List (ℕ × List ℕ) × List SlotMutation

abbrev toy_params : CuckooParams
toy_params = record {
  arity = 2;
  segment_size = 1;
  bucket_size = 1;
  cells_per_slot = 4;
  plaintext_bits = 8;
}

abbrev empty_slot : ℕ × List ℕ
empty_slot = (0, 0 ∷ 0 ∷ 0 ∷ [])

-- Writes a slot, and logs what it replaced.
abbrev put : ℕ → ℕ × List ℕ → Slots → Slots
put bucket slot (slots, log) = (
  set slots bucket slot,
  log
      ++ record {
        bucket = bucket;
        slot = 0;
        old_fingerprint = (get_or slots bucket empty_slot).0;
        new_fingerprint = slot.0;
        old_value_cells = (get_or slots bucket empty_slot).1;
        new_value_cells = slot.1;
      }
        ∷ [],
)

-- The first bucket with the fingerprint.
abbrev first_match : ℕ → List (ℕ × List ℕ) → ℕ
first_match fp [] = 0
first_match fp (slot ∷ slots) =
    let rest = first_match fp slots in if slot.0 == fp then 0 else suc rest

abbrev toy_cells : List (ℕ × List ℕ) → List ℕ
toy_cells [] = []
toy_cells ((fp, value) ∷ slots) = fp ∷ value ++ toy_cells slots

abbrev toy_fp : AddressHash → ℕ
toy_fp key = key % 10 + 1

abbrev toy : Cuckoo Slots
toy = record {
  params = λ s. toy_params;
  slots = λ s. record {
    arity = 2;
    bucket_size = 1;
    candidate_buckets = λ key. (toy_fp key, 0 ∷ 1 ∷ []);
    slot_at = λ bucket slot. get_or s.0 bucket empty_slot;
  };
  value_size_in_bytes = λ s. 3;
  as_cells = λ s. toy_cells s.0;
  insert = λ key value s. (ok tt, put (first_match 0 s.0) (toy_fp key, value) s);
  update = λ key value s. (ok tt, put (first_match (toy_fp key) s.0) (toy_fp key, value) s);
  delete = λ key s. (ok tt, put (first_match (toy_fp key) s.0) empty_slot s);
  enable_mutation_log = λ s. s;
  drain_mutations = λ s. (s.1, (s.0, []));
  pack_slot_cells = λ params fp value. fp ∷ value;
}

-- A backend whose parameters are drawn, and whose hints are the patches that they went through.
abbrev toy_backend : Backend
toy_backend = record {
  Seed = ℕ;
  Config = Unit;
  ServerParams = ℕ;
  HintMaterial = ℕ;
  Hint = List SegmentRowDeltas;
  Query = ℕ;
  Response = ℕ × List ℕ;
  server_setup = λ seed config segment rows width bits. (width + seed, width + seed + 1, []);
  expand_hint_material = λ sp. sp + 1;
  server_patch_hint = λ sp material hint deltas. hint ++ (deltas ∷ []);
  server_answer = λ sp segment rows width query. (query, segment);
}

abbrev start : RisePirServer Slots toy_backend
start = record {
  store = (empty_slot ∷ empty_slot ∷ [], []);
  params = toy_params;
  backend_config = tt;
  backend_params = 4 ∷ 4 ∷ [];
  material = 5 ∷ 5 ∷ [];
  hints = [] ∷ [] ∷ [];
  block = 4;
  value_codec = narrow;
}

-- An account that gets 300, and one that is absent and stays so.
abbrev fifth : BlockUpdate
fifth = record { block = 5; changes = (7, 300) ∷ (8, 0) ∷ []; credits = [] }

abbrev edits : SegmentRowDeltas
edits = (0, (0, pos 8) ∷ (1, pos 0x9e) ∷ (2, pos 0xa5) ∷ (3, pos 3) ∷ []) ∷ []

abbrev fifth_delta : BlockDelta
fifth_delta = record { block = 5; per_segment = edits ∷ [] ∷ [] }

abbrev fifth_report : BlockApplyReport
fifth_report = record {
  inserts = 1;
  updates = 0;
  deletes = 0;
  noop_deletes = 1;
  changes = 2;
  credits = 0;
  touched_cells = 4;
}

abbrev after : RisePirServer Slots toy_backend
after = record start {
  store = ((8, 0x9e ∷ 0xa5 ∷ 0x03 ∷ []) ∷ empty_slot ∷ [], []);
  hints = (edits ∷ []) ∷ [] ∷ [];
  block = 5;
}

run_fifth : apply_block_reporting toy_hash toy fifth start ≡ (ok (fifth_delta, fifth_report), after)
unfolding apply_block_reporting apply_updates apply_changes apply_change dispatch write_located
    delete_located apply_credits conclude_block finish_block patch_hints patch_hint row_cells
    count_cells fold_mutations_into_row_deltas fold_loop fold_mutation fold_cells add_nonzero
    add_entry emit_rows nonzero_cells get insert locate scan_buckets scan_bucket scan_slot
    tagged_slot extract_key_tag encode key_tag decode judge check_widths fits_balance_bits checksum
    fnv1a64 slice_to read_bits read_bits_loop read_bit write_bits write_bits_loop write_bit
    to_le_bytes
run_fifth = refl

-- The second change does not fit 9 bits.
abbrev too_rich : BlockUpdate
too_rich = record { block = 6; changes = (7, 200) ∷ (9, 600) ∷ []; credits = [] }

abbrev failed : RisePirServer Slots toy_backend
failed = record after { store = ((8, 0x1e ∷ 0x59 ∷ 0x01 ∷ []) ∷ empty_slot ∷ [], []) }

run_too_rich :
    apply_block_reporting toy_hash toy too_rich after
    ≡ (err (encode_error balance_overflow), failed)
unfolding apply_block_reporting apply_updates apply_changes apply_change dispatch write_located
    delete_located apply_credits conclude_block reject_block get insert locate scan_buckets
    scan_bucket scan_slot tagged_slot extract_key_tag encode key_tag decode judge check_widths
    fits_balance_bits checksum fnv1a64 slice_to read_bits read_bits_loop read_bit write_bits
    write_bits_loop write_bit to_le_bytes
run_too_rich = refl

drained_log : (s : Slots) → (toy.drain_mutations (toy.drain_mutations s).1).0 ≡ []
drained_log s = refl

apply_block-IsUntouched_example :
    ((6 ≤ 5)
      × (failed ≡ after)
      × (encode_error balance_overflow ≡ non_monotonic_block after.block 6))
    ⊎ ((5 < 6) × IsUntouched toy_hash toy after failed)
apply_block-IsUntouched_example =
    apply_block-IsUntouched toy_hash toy too_rich after failed (encode_error balance_overflow)
      drained_log run_too_rich

apply_block-IsCanonical_example :
    (4 < 5)
    × (fifth_delta.block ≡ 5)
    × (length fifth_delta.per_segment ≡ 2)
    × All IsCanonical fifth_delta.per_segment
    × (after ≡ record start { store = after.store; hints = after.hints; block = 5 })
    × ((toy.drain_mutations after.store).0 ≡ [])
apply_block-IsCanonical_example =
    apply_block-IsCanonical toy_hash toy fifth start after fifth_delta fifth_report drained_log
      run_fifth

apply_block-Patched_example :
    Patched toy_backend start.backend_params start.material start.hints after.hints 0 edits
apply_block-Patched_example =
    apply_block-Patched toy_hash toy fifth start after fifth_delta fifth_report run_fifth 0 edits
      refl

delete_7 :
    apply_change toy_hash toy narrow (7, 0) after.store
    ≡ (ok kind_delete, put 0 empty_slot after.store)
unfolding apply_change dispatch delete_located locate scan_buckets scan_bucket scan_slot tagged_slot
    extract_key_tag key_tag decode judge check_widths checksum fnv1a64 slice_to read_bits
    read_bits_loop read_bit to_le_bytes
delete_7 = refl

apply_change-IsVerified_example :
    IsVerified toy_hash toy narrow 7 0 after.store kind_delete (put 0 empty_slot after.store)
apply_change-IsVerified_example =
    apply_change-IsVerified toy_hash toy narrow 7 0 after.store (put 0 empty_slot after.store)
      kind_delete delete_7

toy-IsLawful : IsLawful toy
toy-IsLawful = record {
  insert = λ key value s. refl;
  update = λ key value s. refl;
  delete = λ key s. refl;
  enable = λ s. refl;
  drain = λ s. refl;
  drained = λ s. refl;
}

toy-IsExpandable : IsExpandable toy_backend
toy-IsExpandable seed config segment rows width bits = refl

build : new toy toy_backend (λ j. 0) (empty_slot ∷ empty_slot ∷ [], []) tt narrow 4 ≡ ok start
unfolding new setup_segments
build = refl

after-Reachable : Reachable toy_hash toy toy_backend after
after-Reachable =
    applied fifth start (built (λ j. 0) (empty_slot ∷ empty_slot ∷ [], []) tt narrow 4 build)
      run_fifth

Reachable-IsServer_example : IsServer toy toy_backend after
Reachable-IsServer_example =
    Reachable-IsServer toy_hash toy toy_backend after toy-IsLawful toy-IsExpandable after-Reachable

from_parts-setup_example :
    from_parts toy toy_backend after.store tt narrow (4 ∷ 4 ∷ []) ((edits ∷ []) ∷ [] ∷ []) 5
    ≡ ok (record after { store = logged toy toy_backend after.store })
from_parts-setup_example =
    from_parts-setup toy_hash toy toy_backend after toy-IsLawful toy-IsExpandable after-Reachable

-- A rebuild draws other seeds.
abbrev drawn : ℕ → ℕ
drawn j = j + 1

abbrev rebuilt_after : RisePirServer Slots toy_backend
rebuilt_after = record after {
  backend_params = 5 ∷ 6 ∷ [];
  material = 6 ∷ 7 ∷ [];
  hints = [] ∷ [] ∷ [];
}

rebuild_after : full_rebuild toy toy_backend drawn after ≡ ok rebuilt_after
unfolding full_rebuild setup_segments
rebuild_after = refl

abbrev two_queries : List ℕ
two_queries = 10 ∷ 20 ∷ []

answer_total_example :
    (length two_queries ≢ 2
      → answer toy toy_backend after two_queries ≡ err (malformed_query 2 (length two_queries)))
    × (length two_queries ≡ 2
        → (responses : List (ℕ × List ℕ)) × (answer toy toy_backend after two_queries
            ≡ ok (responses, 5))
          × (length responses ≡ length two_queries)
          × ((j query : ℕ)
              → get_elem? two_queries j ≡ some query
              → IsResponse toy_backend toy_params
                  (4 ∷ 4 ∷ [])
                  (toy_cells after.store.0)
                  j
                  query
                  (get_elem? responses j)))
answer_total_example =
    answer_total toy toy_backend after two_queries
      (Reachable-IsServer toy_hash toy toy_backend after toy-IsLawful toy-IsExpandable
        after-Reachable)
      (omega arith)
