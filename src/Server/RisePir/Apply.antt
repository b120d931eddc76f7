-- ===== src/Server/RisePir/Apply.antt =====
-- crates/risepir-server/src/server.rs: `apply_block`, one block's changes and credits as one delta.
pub mod Counts
pub mod Epoch
pub mod Difference
pub mod Completes
use private_eth_getbalance_w.Prelude.{
  ℕ, zero, suc, ◌+◌, ◌%◌, ◌^◌, List, [], ◌∷◌, Outcome, ok, err, panic, ◌>>=◌, or_panic, get_elem?,
  set, length, leb, if◌then◌else◌,
}
use private_eth_getbalance_w.Proto.Delta.{AddressHash, BlockUpdate, BlockDelta, SegmentRowDeltas}
use private_eth_getbalance_w.Server.Verified.{lift}
use private_eth_getbalance_w.Server.Fold.{fold_mutations_into_row_deltas}
use private_eth_getbalance_w.Server.RisePir.{
  ServerError, non_monotonic_block, BlockApplyReport, Cuckoo, Backend, RisePirServer, and_then,
  apply_changes, apply_credits,
}

abbrev pub zero_report : BlockApplyReport
zero_report = record {
  inserts = 0;
  updates = 0;
  deletes = 0;
  noop_deletes = 0;
  changes = 0;
  credits = 0;
  touched_cells = 0;
}

-- The sum of `cells.len()` over the rows, and over the segments.
unfoldable pub row_cells : SegmentRowDeltas → ℕ
row_cells [] = 0
row_cells ((row, cells) ∷ rows) = (length cells + row_cells rows) % 2 ^ 64

unfoldable pub count_cells : List SegmentRowDeltas → ℕ
count_cells [] = 0
count_cells (seg ∷ segs) = (row_cells seg + count_cells segs) % 2 ^ 64

module _ {S : Type 0} {b : Backend} where
  -- One segment's hint, which segments without an edit keep.
  unfoldable pub patch_hint :
      ℕ → SegmentRowDeltas → RisePirServer S b → Outcome ServerError (RisePirServer S b)
  patch_hint j [] server = ok server
  patch_hint j (row ∷ deltas) server = do
    params ← or_panic (get_elem? server.backend_params j)
    material ← or_panic (get_elem? server.material j)
    hint ← or_panic (get_elem? server.hints j)
    ok (record server {
      hints = set server.hints j (b.server_patch_hint params material hint (row ∷ deltas));
    })

  -- The segments from `j` on.
  unfoldable pub patch_hints :
      ℕ → List SegmentRowDeltas → RisePirServer S b → Outcome ServerError (RisePirServer S b)
  patch_hints j [] server = ok server
  patch_hints j (deltas ∷ row_deltas) server = do
    server ← patch_hint j deltas server
    patch_hints (j + 1) row_deltas server

  -- What a successful block returns, and leaves.
  abbrev pub sealed :
      BlockUpdate
      → BlockApplyReport
      → List SegmentRowDeltas
      → RisePirServer S b
      → (BlockDelta × BlockApplyReport) × RisePirServer S b
  sealed update counts row_deltas server = (
    (
      record { block = update.block; per_segment = row_deltas },
      record counts {
        changes = length update.changes % 2 ^ 64;
        credits = length update.credits % 2 ^ 64;
        touched_cells = count_cells row_deltas;
      },
    ),
    record server { block = update.block },
  )

  -- A result with its state, beside the state that an error leaves.
  abbrev pub state_of :
      {A : Type 0}
      → RisePirServer S b
      → Outcome ServerError (A × RisePirServer S b)
      → Outcome ServerError A × RisePirServer S b
  state_of server (ok (a, server')) = (ok a, server')
  state_of server (err e) = (err e, server)
  state_of server panic = (panic, server)

module _ {S : Type 0} (cuckoo : Cuckoo S) {b : Backend} where
  -- The single way out of a block that failed.
  unfoldable pub reject_block :
      {A : Type 0} → ServerError → RisePirServer S b → Outcome ServerError A × RisePirServer S b
  reject_block e server = (err e, record server { store = (cuckoo.drain_mutations server.store).1 })

  -- After the loops: one drain, one fold, one patch per touched segment.
  unfoldable pub finish_block :
      BlockUpdate
      → BlockApplyReport
      → RisePirServer S b
      → Outcome ServerError ((BlockDelta × BlockApplyReport) × RisePirServer S b)
  finish_block update counts server = do
    let (muts, store) = cuckoo.drain_mutations server.store
    row_deltas ←
        lift
          (fold_mutations_into_row_deltas (cuckoo.pack_slot_cells server.params) server.params muts)
    server ← patch_hints 0 row_deltas (record server { store = store })
    ok (sealed update counts row_deltas server)

  unfoldable pub conclude_block :
      BlockUpdate
      → RisePirServer S b
      → Outcome ServerError BlockApplyReport × S
      → Outcome ServerError (BlockDelta × BlockApplyReport) × RisePirServer S b
  conclude_block update server (ok counts, store) =
      let server = record server { store = store } in
      state_of server (finish_block update counts server)
  conclude_block update server (err e, store) = reject_block e (record server { store = store })
  conclude_block update server (panic, store) = (panic, record server { store = store })

module _ (xxh3_64_with_seed : AddressHash → ℕ → ℕ) {S : Type 0} (cuckoo : Cuckoo S)
    {b : Backend} where
  -- The loops over the changes and over the credits.
  unfoldable pub apply_updates :
      BlockUpdate → RisePirServer S b → Outcome ServerError BlockApplyReport × S
  apply_updates update server =
      and_then
        (apply_changes xxh3_64_with_seed cuckoo server.value_codec update.changes zero_report
          server.store)
        (apply_credits xxh3_64_with_seed cuckoo server.value_codec update.credits)

  unfoldable pub apply_block_reporting :
      BlockUpdate
      → RisePirServer S b
      → Outcome ServerError (BlockDelta × BlockApplyReport) × RisePirServer S b
  apply_block_reporting update server =
      if leb update.block server.block
      then (err (non_monotonic_block server.block update.block), server)
      else conclude_block cuckoo update server (apply_updates update server)

  -- `apply_block`
  unfoldable pub apply_block :
      BlockUpdate → RisePirServer S b → Outcome ServerError BlockDelta × RisePirServer S b
  apply_block update server =
      let (result, server) = apply_block_reporting update server in
      ((do (delta, report) ← result; ok delta), server)
