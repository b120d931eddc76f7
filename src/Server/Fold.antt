-- ===== src/Server/Fold.antt =====
-- crates/risepir-server/src/fold.rs: the store's mutation log as sparse edits per segment and row.
-- The log's entries, the geometry and `pack_slot_cells` are the cuckoo store's.
pub mod Canonical
pub mod Cells
pub mod Replay
pub mod Total
use private_eth_getbalance_w.Prelude.{ℕ, zero, suc, ◌+◌, ◌*◌, ◌/◌, ◌%◌, ◌^◌, List, [], ◌∷◌, map}
use private_eth_getbalance_w.Prelude.{
  Outcome, ok, panic, ◌>>=◌, or_panic, get_elem?, set, replicate, ltb, ◌==◌, if◌then◌else◌,
}
use private_eth_getbalance_w.Prelude.Int.{ℤ, sub_ℕ, is_zero}
use private_eth_getbalance_w.Prelude.Maps.{get, insert, nat_key}
use private_eth_getbalance_w.Proto.Varint.{to_bits, of_bits}
use private_eth_getbalance_w.Proto.Delta.{
  SegmentRowDeltas, RowMap, SegmentMap, value_or_zero, row_or_default, emit_rows,
}

-- What is read of a slot mutation, and of the geometry.
pub record SlotMutation : Type 0 where
  pub bucket : ℕ
  pub slot : ℕ
  pub old_fingerprint : ℕ
  pub new_fingerprint : ℕ
  pub old_value_cells : List ℕ
  pub new_value_cells : List ℕ

pub record CuckooParams : Type 0 where
  pub arity : ℕ
  pub segment_size : ℕ
  pub bucket_size : ℕ
  pub cells_per_slot : ℕ
  pub plaintext_bits : ℕ

-- `+=` on an i64 wraps.
abbrev pub wrapping_add : ℤ → ℤ → ℤ
wrapping_add a b = of_bits ((to_bits a + to_bits b) % 2 ^ 64)

-- `*row_entry.entry(cell_offset).or_insert(0) += delta`, whose offset is a u16 or a panic.
unfoldable pub add_entry : ℕ → ℤ → RowMap → Outcome ⊥ RowMap
add_entry cell_offset delta row_entry =
    if ltb cell_offset (2 ^ 16)
    then ok (
        insert cell_offset (wrapping_add (value_or_zero (get cell_offset row_entry)) delta)
          row_entry)
    else panic

-- `if delta == 0 { continue }`
unfoldable pub add_nonzero : ℕ → ℤ → RowMap → Outcome ⊥ RowMap
add_nonzero cell_offset delta row_entry =
    if is_zero delta then ok row_entry else add_entry cell_offset delta row_entry

-- The loop over the cells of a slot from `c` on, `left` of them.
unfoldable pub fold_cells : ℕ → List ℕ → List ℕ → ℕ → ℕ → RowMap → Outcome ⊥ RowMap
fold_cells base old_buf new_buf zero c row_entry = ok row_entry
fold_cells base old_buf new_buf (suc left) c row_entry = do
  new_cell ← or_panic (get_elem? new_buf c)
  old_cell ← or_panic (get_elem? old_buf c)
  row_entry ← add_nonzero (base + c) (sub_ℕ new_cell old_cell) row_entry
  fold_cells base old_buf new_buf left (c + 1) row_entry

-- `pack_slot_cells` gives the cells of a slot with a fingerprint and a value.
module _ (pack_slot_cells : ℕ → List ℕ → List ℕ) (params : CuckooParams) where
  -- One mutation. A division by 0 panics, and so does a segment that is not there.
  unfoldable pub fold_mutation : SlotMutation → List SegmentMap → Outcome ⊥ (List SegmentMap)
  fold_mutation m acc = if params.segment_size == 0 then panic else do
    let seg_idx = m.bucket / params.segment_size
    let bucket_in_seg = m.bucket % params.segment_size
    seg ← or_panic (get_elem? acc seg_idx)
    row_entry ←
        fold_cells (m.slot * params.cells_per_slot)
          (pack_slot_cells m.old_fingerprint m.old_value_cells)
          (pack_slot_cells m.new_fingerprint m.new_value_cells) params.cells_per_slot 0
          (row_or_default (get bucket_in_seg seg))
    ok (set acc seg_idx (insert bucket_in_seg row_entry seg))

  unfoldable pub fold_loop : List SlotMutation → List SegmentMap → Outcome ⊥ (List SegmentMap)
  fold_loop [] acc = ok acc
  fold_loop (m ∷ muts) acc = do acc ← fold_mutation m acc; fold_loop muts acc

  unfoldable pub fold_mutations_into_row_deltas :
      List SlotMutation → Outcome ⊥ (List SegmentRowDeltas)
  fold_mutations_into_row_deltas muts = do
    acc ← fold_loop muts (replicate params.arity [])
    ok (map emit_rows acc)
